-- ===== src/Adapter/Registry/Once/Flushes.antt =====
-- The flushes and the retries on a command that the registry no longer has.
use mathlib.Core.Path.{subst}
use ariava.Prelude.{
  String, ◌≡◌, refl, sym, Option, none, some, string_eq, nat_eq, Result, ok, throw,
}
use ariava.Prelude.Dict.{lookup}
use ariava.Store.State.{Timestamp}
use ariava.Adapter.{RegisteredSession, PendingTerminal}
use ariava.Adapter.Codec.{input_of}
use ariava.Adapter.Registry.{Registry, StateStore}
use ariava.Adapter.Registry.Action.{Ran, pure}
use ariava.Adapter.Registry.Terminal.{
  clear_retry, arm_retry, schedule_terminal_retry, commit_terminal_session, cancel_terminal_retry,
  CancelOptions, no_options, commit_current, commit_pending_terminal, flush_pending,
  flush_delayed_terminal_event, has_pending_command_work,
}
use ariava.Adapter.Registry.Slots.{if-elim, bind-keep}
use ariava.Adapter.Registry.Slots.Ready.{cancel_cases}
use ariava.Adapter.Registry.Outcomes.{flushed, committed_registry, commit-ok, commit-thrown}
use ariava.Adapter.Registry.Once.{Gone}

module _ (c : String) {S : Type 0} where
  abbrev GoneHere : Registry S → Type 0
  GoneHere r = Gone c r

  module _ (store : StateStore S) (now : Timestamp) where
    clear-Gone : (i : String) (r : Registry S) → GoneHere r → GoneHere (clear_retry store now i r)
    unfolding clear_retry
    clear-Gone i r gone = gone

    pub schedule-Gone :
        (i : String) (r : Registry S)
        → GoneHere r
        → GoneHere (schedule_terminal_retry store now i r)
    unfolding schedule_terminal_retry arm_retry
    schedule-Gone i r gone = if-elim GoneHere _ r (arm_retry store now i r) (λ h. gone) (λ h. gone)

    pub cancel-Gone :
        (i : String) (options : CancelOptions) (r : Registry S)
        → GoneHere r
        → GoneHere (cancel_terminal_retry store now i options r).registry
    cancel-Gone i options r gone =
        cancel_cases store now i (λ ran. GoneHere ran.registry) options r (λ s error. gone)
          (λ s. clear-Gone i (record r { store = s }) gone)

    committed-Gone :
        (i : String) (pending : PendingTerminal) (current : RegisteredSession) (r : Registry S)
        → GoneHere r
        → GoneHere (committed_registry store now i pending current r)
    unfolding commit_terminal_session
    committed-Gone i pending current r gone = clear-Gone i _ gone

    flush_pending-Gone :
        (i : String) (pending : Option PendingTerminal) (session : Option RegisteredSession)
        (r : Registry S)
        → lookup r.sessions i ≡ session
        → GoneHere r
        → GoneHere (flush_pending store now i pending session r).registry
    unfolding flush_pending commit_pending_terminal
    flush_pending-Gone i none none r live gone = gone
    flush_pending-Gone i none (some session) r live gone = gone
    flush_pending-Gone i (some pending) none r live gone =
        bind-keep GoneHere (cancel_terminal_retry store now i no_options) (λ done. pure none) r
          (cancel-Gone i no_options r gone) (λ done kept. kept)
    flush_pending-Gone i (some pending) (some current) r live gone =
        subst
          (λ session.
            GoneHere
              (flushed store now i pending current (
                commit_current store now i pending (store.fingerprint (input_of pending.event))
                  session r)).registry)
          (sym live)
          (of_write
            (store.queue_pending_event r.store pending
              (store.fingerprint (input_of pending.event))).result
            refl)
      where
        of_write :
            (result : Result String (Unit {0}))
            → (store.queue_pending_event r.store pending
                (store.fingerprint (input_of pending.event))).result
              ≡ result
            → GoneHere
                (flushed store now i pending current (
                  commit_current store now i pending
                    (store.fingerprint (input_of pending.event))
                    (some current)
                    r)).registry
        of_write (ok done) e =
            rw (commit-ok store now i pending current r e) (committed-Gone i pending current r gone)
        of_write (throw error) e = rw (commit-thrown store now i pending current r error e) (
            schedule-Gone i
              (record r {
                store =
                    (store.queue_pending_event r.store pending
                      (store.fingerprint (input_of pending.event))).next;
              })
              gone)

    pub flush-Gone :
        (i : String) (r : Registry S)
        → GoneHere r
        → GoneHere (flush_delayed_terminal_event store now i r).registry
    unfolding flush_delayed_terminal_event
    flush-Gone i r gone =
        if-elim (λ (ran : Ran S (Option String)). GoneHere ran.registry)
          (has_pending_command_work r i) (pure none r) _ (λ h. gone)
          (λ h.
            flush_pending-Gone i (lookup r.delayed_terminal_events i) (lookup r.sessions i) r refl
              gone)
