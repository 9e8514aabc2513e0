-- ===== src/Adapter/Registry/Slots/Retries.antt =====
-- The commit, the retry and the cancellation of a staged event: they touch one session, and leave
-- its event committed, cancelled or waited for.
use ariava.Prelude.{
  String, true, false, not, ◌||◌, ◌≡◌, refl, Option, none, some, ◌==◌, string_eq, arith, eq_iff,
  Bool-cases, inl, inr,
}
use ariava.Prelude.Dict.{
  Dict, lookup, remove, has_key, lookup-insert_ne, lookup-remove_ne, lookup-remove,
}
use ariava.Store.State.{Timestamp}
use ariava.Adapter.{RegisteredSession, PendingTerminal}
use ariava.Adapter.Codec.{input_of}
use ariava.Adapter.Registration.{Cancellation}
use ariava.Adapter.Registry.{Registry, StateStore, committed}
use ariava.Adapter.Registry.Action.{Action, Ran, pure, ◌>>◌, modify, emit, write}
use ariava.Adapter.Registry.Terminal.{
  has_pending_command_work, arm_retry, schedule_terminal_retry, CancelOptions, no_options,
  clear_retry, cancel_durably, cancellation_of, cancel_terminal_retry, commit_terminal_session,
  from_canonical_terminal_session, commit_current, commit_pending_terminal,
  promote_pending_terminal, flush_pending, flush_delayed_terminal_event,
}
use ariava.Adapter.Registry.Slots.{
  slot, Frames, Quiet, bind-Frames, if-elim, on_throw-Frames, catching-Frames,
}

pub lookup-remove_self {ℓ} : {V : Type ℓ} (d : Dict V) (k : String) → lookup (remove d k) k ≡ none
lookup-remove_self d k = ground (arith, lookup-remove d k k, eq_iff k k)

module _ {S : Type 0} (store : StateStore S) (now : Timestamp) (i : String) where
  pub clear-slot :
      (r : Registry S) (j : String)
      → (i == j) ≡ false
      → slot (clear_retry store now i r) j ≡ slot r j
  unfolding clear_retry
  clear-slot r j other =
      rw
        (
          lookup-remove_ne r.terminal_retry_timers i j other,
          lookup-remove_ne r.delayed_terminal_events i j other,
        )
        refl

  clear-Frames : Frames i (modify (clear_retry store now i))
  clear-Frames r j other = clear-slot r j other

  durably-Quiet :
      (options : CancelOptions) (c : Option Cancellation)
      → Quiet (cancel_durably store now i options c)
  unfolding cancel_durably
  durably-Quiet options none r j = refl
  durably-Quiet options (some c) r j = elim (Bool-cases options.is_committed) [
    | inl h ↦ rw h refl
    | inr h ↦ rw h refl
  ]

  pub cancel-Frames :
      (options : CancelOptions) → Frames i (cancel_terminal_retry store now i options)
  unfolding cancel_terminal_retry
  cancel-Frames options r j other =
      bind-Frames i (cancel_durably store now i options cancellation)
        (λ done. modify (clear_retry store now i))
        (λ r j other. durably-Quiet options cancellation r j) (λ done. clear-slot) r j other
    where
      cancellation : Option Cancellation
      cancellation = cancellation_of store now (lookup r.delayed_terminal_events i) options

  arm-slot :
      (r : Registry S) (j : String) → (i == j) ≡ false → slot (arm_retry store now i r) j ≡ slot r j
  unfolding arm_retry
  arm-slot r j other = rw (lookup-insert_ne r.terminal_retry_timers i j _ other) refl

  schedule-slot :
      (r : Registry S) (j : String)
      → (i == j) ≡ false
      → slot (schedule_terminal_retry store now i r) j ≡ slot r j
  unfolding schedule_terminal_retry
  schedule-slot r j other =
      if-elim (λ (x : Registry S). slot x j ≡ slot r j)
        (r.disposed
          || not (has_key r.delayed_terminal_events i)
          || has_key r.terminal_retry_timers i)
        r (arm_retry store now i r) (λ h. refl) (λ h. arm-slot r j other)

  commit_session-slot :
      (previous terminal : RegisteredSession) (r : Registry S) (j : String)
      → (i == j) ≡ false
      → slot (commit_terminal_session store now i previous terminal r) j ≡ slot r j
  unfolding commit_terminal_session
  commit_session-slot previous terminal r j other =
      rw (lookup-insert_ne r.sessions i j terminal other) refl

  current-Frames :
      (pending : PendingTerminal) (fingerprint : String) (session : Option RegisteredSession)
      → Frames i (commit_current store now i pending fingerprint session)
  unfolding commit_current
  current-Frames pending fingerprint none = λ r j other. refl
  current-Frames pending fingerprint (some current) =
      bind-Frames i (write (λ s. store.queue_pending_event s pending fingerprint))
        (λ done. emit (committed pending.event.event_id) >> (modify session_committed >> rest))
        (λ r j other. refl)
        λ done.
          bind-Frames i (emit (committed pending.event.event_id))
            (λ done. modify session_committed >> rest) (λ r j other. refl)
            λ done.
              bind-Frames i (modify session_committed) (λ done. rest)
                (commit_session-slot current
                  (from_canonical_terminal_session store now current pending.session))
                λ done. cancel-Frames (record no_options { is_committed = true })
    where
      session_committed : Registry S → Registry S
      session_committed =
          commit_terminal_session store now i current
            (from_canonical_terminal_session store now current pending.session)

      rest : Action S (Unit {0})
      rest = cancel_terminal_retry store now i (record no_options { is_committed = true })

  pub promote-Frames :
      (pending : PendingTerminal) (fingerprint : String)
      → Frames i (promote_pending_terminal store now i pending fingerprint)
  unfolding promote_pending_terminal commit_pending_terminal
  promote-Frames pending fingerprint r j other =
      on_throw-Frames i (commit_pending_terminal store now i pending fingerprint)
        (modify (schedule_terminal_retry store now i))
        (λ r. current-Frames pending fingerprint (lookup r.sessions i) r) schedule-slot r j other

  flush_pending-Frames :
      (pending : Option PendingTerminal) (session : Option RegisteredSession)
      → Frames i (flush_pending store now i pending session)
  unfolding flush_pending commit_pending_terminal
  flush_pending-Frames none none = λ r j other. refl
  flush_pending-Frames none (some session) = λ r j other. refl
  flush_pending-Frames (some pending) none =
      bind-Frames i (cancel_terminal_retry store now i no_options) (λ done. pure none)
        (cancel-Frames no_options) λ done r j other. refl
  flush_pending-Frames (some pending) (some session) =
      catching-Frames i
        (commit_pending_terminal store now i pending (store.fingerprint (input_of pending.event))
          >> pure (some pending.event.event_id))
        (modify (schedule_terminal_retry store now i) >> pure none)
        (bind-Frames i
          (commit_pending_terminal store now i pending (store.fingerprint (input_of pending.event)))
          (λ done. pure (some pending.event.event_id))
          (λ r.
            current-Frames pending (store.fingerprint (input_of pending.event))
              (lookup r.sessions i) r)
          λ done r j other. refl)
        (bind-Frames {B = Option String} i (modify (schedule_terminal_retry store now i))
          (λ done. pure none) schedule-slot λ done r j other. refl)

  pub flush-Frames : Frames i (flush_delayed_terminal_event store now i)
  unfolding flush_delayed_terminal_event
  flush-Frames r j other =
      if-elim (λ (x : Ran S (Option String)). slot x.registry j ≡ slot r j)
        (has_pending_command_work r i) (pure none r)
        (flush_pending store now i (lookup r.delayed_terminal_events i) (lookup r.sessions i) r)
        (λ h. refl)
        (λ h.
          flush_pending-Frames (lookup r.delayed_terminal_events i) (lookup r.sessions i) r j other)
