-- ===== src/Adapter/Registry/Outcomes.antt =====
-- What a flush comes to: a staged event is committed, or it waits for the next attempt.
use mathlib.Core.Path.{subst}
use ariava.Prelude.{
  ℕ, String, Bool, true, false, not, ◌||◌, ◌⊎◌, inl, inr, ◌≡◌, refl, sym, ap, ◌∙◌, Option, none,
  some, [], ◌∷◌, ◌++◌, string_eq, Result, ok, throw,
}
use ariava.Prelude.Dict.{lookup, lookup-insert_self}
use ariava.Store.State.{Timestamp}
use ariava.Adapter.{RegisteredSession, PendingTerminal}
use ariava.Adapter.Codec.{input_of}
use ariava.Adapter.Registry.{Registry, StateStore, Wrote, committed}
use ariava.Adapter.Registry.Action.{Ran, pure, continue, ◌>>◌, modify, recover}
use ariava.Adapter.Registry.Terminal.{
  clear_retry, arm_retry, schedule_terminal_retry, commit_terminal_session,
  from_canonical_terminal_session, commit_current, commit_pending_terminal, flush_pending,
  flush_delayed_terminal_event, has_pending_command_work,
}
use ariava.Adapter.Registry.Slots.{if-elim, is_some}
use ariava.Adapter.Registry.Slots.Retries.{lookup-remove_self}
use ariava.Adapter.Registry.Slots.Ready.{cancel-committed}

module _ {S : Type 0} (store : StateStore S) (now : Timestamp) where
  module _ (i : String) (pending : PendingTerminal) (current : RegisteredSession) where
    -- The registry once the event is committed.
    abbrev pub committed_registry : Registry S → Registry S
    committed_registry r = clear_retry store now i (
        commit_terminal_session store now i current
          (from_canonical_terminal_session store now current pending.session)
          (record r {
            store =
                (store.queue_pending_event r.store pending
                  (store.fingerprint (input_of pending.event))).next;
            effects = r.effects ++ (committed pending.event.event_id ∷ []);
          }))

    -- The write of the event that the state store is asked for.
    abbrev written : Registry S → Wrote S
    written r =
        store.queue_pending_event r.store pending (store.fingerprint (input_of pending.event))

    pub commit-ok :
        (r : Registry S)
        → (written r).result ≡ ok tt
        → commit_current store now i pending
            (store.fingerprint (input_of pending.event))
            (some current)
            r
          ≡ record { registry = committed_registry r; result = ok tt }
    unfolding commit_current
    commit-ok r accepted = rw accepted (cancel-committed store now i _)

    pub commit-thrown :
        (r : Registry S) (error : String)
        → (written r).result ≡ throw error
        → commit_current store now i pending
            (store.fingerprint (input_of pending.event))
            (some current)
            r
          ≡ record { registry = record r { store = (written r).next }; result = throw error }
    unfolding commit_current
    commit-thrown r error refused = rw refused refl

    abbrev pub flushed : Ran S (Unit {0}) → Ran S (Option String)
    flushed ran =
        let whole =
          continue {B = Option String} ran.registry ran.result
            (λ done. pure (some pending.event.event_id)) in
        recover whole.registry whole.result
          (modify (schedule_terminal_retry store now i) >> pure none)

    pub flush-is :
        (r : Registry S)
        → lookup r.sessions i ≡ some current
        → lookup r.delayed_terminal_events i ≡ some pending
        → has_pending_command_work r i ≡ false
        → flush_delayed_terminal_event store now i r
          ≡ flushed (
              commit_current store now i pending
                (store.fingerprint (input_of pending.event))
                (some current)
                r)
    unfolding flush_delayed_terminal_event flush_pending commit_pending_terminal
    flush-is r has staged idle = rw (idle, staged, has, has) refl

    committed-after :
        (r : Registry S)
        → ((committed_registry r).store ≡ (written r).next)
          × (lookup (committed_registry r).delayed_terminal_events i ≡ none)
          × (lookup (committed_registry r).sessions i
              ≡ some (from_canonical_terminal_session store now current pending.session))
    unfolding clear_retry commit_terminal_session
    committed-after r =
        (refl, lookup-remove_self r.delayed_terminal_events i, lookup-insert_self r.sessions i _)

    timed :
        (disposed : Bool) (event : Option PendingTerminal) (timer : Option ℕ)
        → event ≡ some pending
        → (disposed
            || not (elim event [ none ↦ false | some v ↦ true ])
            || elim timer [ none ↦ false | some v ↦ true ])
          ≡ true
        → (disposed ≡ true) ⊎ (is_some timer ≡ true)
    timed disposed none timer staged h = cc
    timed true (some event) timer staged h = inl refl
    timed false (some event) (some timer) staged h = inr refl
    timed false (some event) none staged h = cc

    -- What a retry that is asked for leaves of a registry where the event is staged.
    abbrev Scheduled : Registry S → Registry S → Type 0
    Scheduled r after =
        (after.store ≡ r.store)
        × (lookup after.delayed_terminal_events i ≡ some pending)
        × (lookup after.sessions i ≡ some current)
        × ((r.disposed ≡ true) ⊎ (is_some (lookup after.terminal_retry_timers i) ≡ true))

    schedule_keeps :
        (r : Registry S)
        → lookup r.delayed_terminal_events i ≡ some pending
        → lookup r.sessions i ≡ some current
        → Scheduled r (schedule_terminal_retry store now i r)
    unfolding schedule_terminal_retry arm_retry
    schedule_keeps r staged has =
        if-elim (Scheduled r) _ r (arm_retry store now i r)
          (λ h. (refl, staged, has, timed r.disposed _ (lookup r.terminal_retry_timers i) staged h))
          (λ h.
            (refl, staged, has, inr (ap is_some (lookup-insert_self r.terminal_retry_timers i _))))

    -- How a flush ends: the state store has been asked to take the event, and has taken it or not.
    abbrev pub Flushed : Registry S → Ran S (Option String) → Type 0
    Flushed r ran =
        (ran.registry.store ≡ (written r).next)
        × ((((written r).result ≡ ok tt)
              × (ran.result ≡ ok (some pending.event.event_id))
              × (lookup ran.registry.delayed_terminal_events i ≡ none)
              × (lookup ran.registry.sessions i
                  ≡ some (from_canonical_terminal_session store now current pending.session)))
            ⊎ ((error : String) × ((written r).result ≡ throw error)
                × (ran.result ≡ ok none)
                × (lookup ran.registry.delayed_terminal_events i ≡ some pending)
                × (lookup ran.registry.sessions i ≡ some current)
                × ((r.disposed ≡ true)
                    ⊎ (is_some (lookup ran.registry.terminal_retry_timers i) ≡ true))))

    -- A flush of the staged event of a live session, when no command work is pending any more, asks
    -- the state store to take the event. If it takes it, the flush returns the event's id, nothing is
    -- staged any more, and the live session stands at the event's status, text and id. If it does not,
    -- the flush returns nothing, the event stays staged, the session stays as it is, and unless the
    -- registry has ended a timer is set to retry.
    pub flush_commits :
        (r : Registry S)
        → lookup r.sessions i ≡ some current
        → lookup r.delayed_terminal_events i ≡ some pending
        → has_pending_command_work r i ≡ false
        → Flushed r (flush_delayed_terminal_event store now i r)
    flush_commits r has staged idle = of_write (written r).result refl
      where
        of_write :
            (result : Result String (Unit {0}))
            → (written r).result ≡ result
            → Flushed r (flush_delayed_terminal_event store now i r)
        of_write (ok done) accepted =
            let (stored, unstaged, stands) = committed-after r in
            subst (Flushed r) (sym (flush-is r has staged idle ∙ ap flushed (commit-ok r accepted)))
              (stored, inl (accepted, refl, unstaged, stands))
        of_write (throw error) refused =
            let after : Registry S = record r { store = (written r).next } in
            let (stored, stays, stands, timed) = schedule_keeps after staged has in
            subst (Flushed r)
              (sym (flush-is r has staged idle ∙ ap flushed (commit-thrown r error refused)))
              (stored, inr (error, refused, refl, stays, stands, timed))
