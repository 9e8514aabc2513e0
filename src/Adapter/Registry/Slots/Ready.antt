-- ===== src/Adapter/Registry/Slots/Ready.antt =====
-- What the commit, the retry and the cancellation of a staged event leave in the session's own slot.
use mathlib.Core.Path.{subst}
use ariava.Prelude.{
  String, true, not, ◌||◌, ◌≡◌, refl, sym, ap, Option, none, some, [], ◌∷◌, ◌++◌, string_eq, Result,
  ok, throw, arith,
}
use ariava.Prelude.Dict.{lookup, has_key, lookup-insert_self}
use ariava.Store.State.{Timestamp}
use ariava.Adapter.{RegisteredSession, PendingTerminal}
use ariava.Adapter.Codec.{input_of}
use ariava.Adapter.Registration.{Cancellation}
use ariava.Adapter.Registry.{Registry, StateStore, committed}
use ariava.Adapter.Registry.Action.{
  Action, Ran, pure, continue, ◌>>◌, modify, emit, write, rethrow, recover,
}
use ariava.Adapter.Registry.Terminal.{
  has_pending_command_work, arm_retry, retry_delay_ms, schedule_terminal_retry, CancelOptions,
  no_options, clear_retry, cancel_durably, cancellation_of, cancel_terminal_retry,
  commit_terminal_session, from_canonical_terminal_session, commit_current, commit_pending_terminal,
  promote_pending_terminal, flush_pending, flush_delayed_terminal_event,
}
use ariava.Adapter.Registry.Slots.{is_ready, is_held, slot, if-elim}
use ariava.Adapter.Registry.Slots.Retries.{lookup-remove_self}

module _ {S : Type 0} (store : StateStore S) (now : Timestamp) (i : String) where
  abbrev pub Ready : Registry S → Type 0
  Ready r = is_ready (slot r i) ≡ true

  abbrev pub Held : Registry S → Type 0
  Held r = is_held (slot r i) ≡ true

  pub clear-Ready : (r : Registry S) → Ready (clear_retry store now i r)
  unfolding clear_retry
  clear-Ready r = rw (lookup-remove_self r.delayed_terminal_events i) (ground arith)

  pub arm-Ready : (r : Registry S) → Held r → Ready (arm_retry store now i r)
  unfolding arm_retry
  arm-Ready r held =
      rw (lookup-insert_self r.terminal_retry_timers i (retry_delay_ms _)) (ground arith)

  pub schedule-Ready : (r : Registry S) → Held r → Ready (schedule_terminal_retry store now i r)
  unfolding schedule_terminal_retry
  schedule-Ready r held =
      if-elim Ready
        (r.disposed
          || not (has_key r.delayed_terminal_events i)
          || has_key r.terminal_retry_timers i)
        r (arm_retry store now i r) (λ h. ground arith) (λ h. arm-Ready r held)

  durably-committed :
      (c : Option Cancellation) (r : Registry S)
      → cancel_durably store now i (record no_options { is_committed = true }) c r
        ≡ record { registry = r; result = ok tt }
  unfolding cancel_durably
  durably-committed none r = refl
  durably-committed (some c) r = refl

  pub cancel-committed :
      (r : Registry S)
      → cancel_terminal_retry store now i (record no_options { is_committed = true }) r
        ≡ record { registry = clear_retry store now i r; result = ok tt }
  unfolding cancel_terminal_retry
  cancel-committed r =
      ap
        (λ (x : Ran S (Unit {0})).
          continue x.registry x.result (λ done. modify (clear_retry store now i)))
        (durably-committed
          (cancellation_of store now (lookup r.delayed_terminal_events i)
            (record no_options { is_committed = true }))
          r)

  -- A commit throws at its write, before it changes anything, or ends with the event cleared.
  pub commit_cases :
      (P : Ran S (Unit {0}) → Type 0) (pending : PendingTerminal) (fingerprint : String)
      (current : RegisteredSession) (r : Registry S)
      → ((s : S) (error : String)
          → P (record { registry = record r { store = s }; result = throw error }))
      → ((after : Registry S)
          → after.command_queues ≡ r.command_queues
          → P (record { registry = clear_retry store now i after; result = ok tt }))
      → P (commit_current store now i pending fingerprint (some current) r)
  unfolding commit_current commit_terminal_session
  commit_cases P pending fingerprint current r thrown done =
      of_write (store.queue_pending_event r.store pending fingerprint).next
        (store.queue_pending_event r.store pending fingerprint).result
    where
      changed : Registry S → Registry S
      changed r =
          commit_terminal_session store now i current
            (from_canonical_terminal_session store now current pending.session)
            (record r { effects = r.effects ++ (committed pending.event.event_id ∷ []) })

      of_write :
          (s : S) (result : Result String (Unit {0}))
          → P (
              continue
                (record r { store = s })
                result
                λ first. do
                  emit (committed pending.event.event_id)
                  modify (
                      commit_terminal_session store now i current
                        (from_canonical_terminal_session store now current pending.session))
                  cancel_terminal_retry store now i (record no_options { is_committed = true }))
      of_write s (throw error) = thrown s error
      of_write s (ok first) =
          subst P (sym (cancel-committed (changed (record r { store = s }))))
            (done (changed (record r { store = s })) refl)

  pub promote-Ready :
      (pending : PendingTerminal) (fingerprint : String) (current : RegisteredSession)
      (r : Registry S)
      → lookup r.sessions i ≡ some current
      → Ready (promote_pending_terminal store now i pending fingerprint r).registry
  unfolding promote_pending_terminal commit_pending_terminal
  promote-Ready pending fingerprint current r live =
      subst
        (λ (session : Option RegisteredSession).
          let ran = commit_current store now i pending fingerprint session r in
          Ready
            (rethrow ran.registry ran.result
              (modify (schedule_terminal_retry store now i))).registry)
        (sym live)
        (commit_cases
          (λ ran.
            Ready
              (rethrow ran.registry ran.result
                (modify (schedule_terminal_retry store now i))).registry)
          pending fingerprint current r
          (λ s error.
            schedule-Ready (record r { store = s })
              (live-Held (record r { store = s }) current live))
          (λ after same. clear-Ready after))
    where
      live-Held :
          (r : Registry S) (current : RegisteredSession)
          → lookup r.sessions i ≡ some current
          → Held r
      live-Held r current live = ground arith

  -- A cancellation throws at its write, before it changes anything, or ends with the event cleared.
  pub cancel_cases :
      (P : Ran S (Unit {0}) → Type 0) (options : CancelOptions) (r : Registry S)
      → ((s : S) (error : String)
          → P (record { registry = record r { store = s }; result = throw error }))
      → ((s : S)
          → P (record {
            registry = clear_retry store now i (record r { store = s });
            result = ok tt;
          }))
      → P (cancel_terminal_retry store now i options r)
  unfolding cancel_terminal_retry cancel_durably
  cancel_cases P options r thrown done =
      of_cancellation (cancellation_of store now (lookup r.delayed_terminal_events i) options)
    where
      of_result :
          (s : S) (result : Result String (Unit {0}))
          → P (continue (record r { store = s }) result λ first. modify (clear_retry store now i))
      of_result s (throw error) = thrown s error
      of_result s (ok first) = done s

      of_cancellation :
          (c : Option Cancellation)
          → P (
              continue
                (cancel_durably store now i options c r).registry
                (cancel_durably store now i options c r).result
                λ first. modify (clear_retry store now i))
      of_cancellation none = done r.store
      of_cancellation (some c) =
          if-elim
            (λ (m : Action S (Unit {0})).
              P (continue (m r).registry (m r).result λ first. modify (clear_retry store now i)))
            options.is_committed (pure tt) (write _) (λ h. done r.store) (λ h. of_result _ _)

  pub cancel-Ready :
      (options : CancelOptions) (r : Registry S)
      → Ready r
      → Ready (cancel_terminal_retry store now i options r).registry
  cancel-Ready options r ready =
      cancel_cases (λ ran. Ready ran.registry) options r (λ s error. ready)
        (λ s. clear-Ready (record r { store = s }))

  flush_pending-Ready :
      (pending : Option PendingTerminal) (session : Option RegisteredSession) (r : Registry S)
      → lookup r.delayed_terminal_events i ≡ pending
      → lookup r.sessions i ≡ session
      → Held r
      → Ready (flush_pending store now i pending session r).registry
  unfolding flush_pending commit_pending_terminal
  flush_pending-Ready none session r staged live held = ground arith
  flush_pending-Ready (some pending) none r staged live held =
      cancel_cases
        (λ ran.
          Ready (continue {B = Option String} ran.registry ran.result (λ done. pure none)).registry)
        no_options r (λ s error. ground arith) (λ s. clear-Ready (record r { store = s }))
  flush_pending-Ready (some pending) (some current) r staged live held =
      subst
        (λ (session : Option RegisteredSession). after_commit (
          commit_current store now i pending (store.fingerprint (input_of pending.event)) session
            r))
        (sym live)
        (commit_cases after_commit pending (store.fingerprint (input_of pending.event)) current r
          (λ s error. schedule-Ready (record r { store = s }) held)
          (λ after same. clear-Ready after))
    where
      after_commit : Ran S (Unit {0}) → Type 0
      after_commit ran =
          let whole =
            continue {B = Option String} ran.registry ran.result
              (λ done. pure (some pending.event.event_id)) in
          Ready
            (recover whole.registry whole.result
              (modify (schedule_terminal_retry store now i) >> pure none)).registry

  -- After a flush the session's staged event is gone or waited for, whether the flush commits it,
  -- fails to, or finds command work pending.
  pub flush-Ready :
      (r : Registry S) → Held r → Ready (flush_delayed_terminal_event store now i r).registry
  unfolding flush_delayed_terminal_event has_pending_command_work
  flush-Ready r held =
      if-elim (λ (ran : Ran S (Option String)). Ready ran.registry) (has_pending_command_work r i)
        (pure none r)
        (flush_pending store now i (lookup r.delayed_terminal_events i) (lookup r.sessions i) r)
        (λ h. ground arith) (λ h. flush_pending-Ready _ _ r refl refl held)
