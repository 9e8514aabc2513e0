-- ===== src/Adapter/Registry/Slots/Queues.antt =====
-- The methods on staged events leave the command queues alone.
use mathlib.Core.Path.{subst}
use ariava.Prelude.{String, not, ◌||◌, ◌≡◌, refl, sym, ◌∙◌, Option, none, some, Result, ok, throw}
use ariava.Prelude.Dict.{lookup, has_key}
use ariava.Store.State.{Timestamp}
use ariava.Adapter.{RegisteredSession, PendingTerminal}
use ariava.Adapter.Codec.{input_of}
use ariava.Adapter.Registry.{Registry, StateStore}
use ariava.Adapter.Registry.Action.{
  Action, Ran, pure, continue, ◌>>=◌, ◌>>◌, modify, recover, rethrow,
}
use ariava.Adapter.Registry.Terminal.{
  CancelOptions, no_options, arm_retry, schedule_terminal_retry, clear_retry, cancel_terminal_retry,
  commit_current, commit_pending_terminal, promote_pending_terminal, flush_pending,
  flush_delayed_terminal_event, has_pending_command_work,
}
use ariava.Adapter.Registry.Slots.{if-elim}
use ariava.Adapter.Registry.Slots.Ready.{cancel_cases, commit_cases}

module _ {S : Type 0} where
  abbrev pub KeepsQueues : {A : Type 0} → Action S A → Type 0
  KeepsQueues m = (r : Registry S) → (m r).registry.command_queues ≡ r.command_queues

  pub bind-KeepsQueues :
      {A B : Type 0} (m : Action S A) (k : A → Action S B)
      → KeepsQueues m
      → ((a : A) → KeepsQueues (k a))
      → KeepsQueues (m >>= k)
  bind-KeepsQueues {A} m k first next r = of_result (m r).result ∙ first r
    where
      of_result :
          (result : Result String A)
          → (continue (m r).registry result k).registry.command_queues
            ≡ (m r).registry.command_queues
      of_result (ok a) = next a (m r).registry
      of_result (throw error) = refl

  module _ (store : StateStore S) (now : Timestamp) (i : String) where
    pub clear-queues :
        (r : Registry S) → (clear_retry store now i r).command_queues ≡ r.command_queues
    unfolding clear_retry
    clear-queues r = refl

    pub cancel-queues :
        (options : CancelOptions) → KeepsQueues (cancel_terminal_retry store now i options)
    cancel-queues options r =
        cancel_cases store now i (λ ran. ran.registry.command_queues ≡ r.command_queues) options r
          (λ s error. refl) (λ s. clear-queues (record r { store = s }))

    schedule-queues :
        (r : Registry S) → (schedule_terminal_retry store now i r).command_queues ≡ r.command_queues
    unfolding schedule_terminal_retry arm_retry
    schedule-queues r =
        if-elim (λ (x : Registry S). x.command_queues ≡ r.command_queues)
          (r.disposed
            || not (has_key r.delayed_terminal_events i)
            || has_key r.terminal_retry_timers i)
          r (arm_retry store now i r) (λ h. refl) (λ h. refl)

    promote_of-queues :
        (pending : PendingTerminal) (fingerprint : String) (session : Option RegisteredSession)
        (r : Registry S)
        → (rethrow
            (commit_current store now i pending fingerprint session r).registry
            (commit_current store now i pending fingerprint session r).result
            (modify (schedule_terminal_retry store now i))).registry.command_queues
          ≡ r.command_queues
    unfolding commit_current
    promote_of-queues pending fingerprint none r = schedule-queues r
    promote_of-queues pending fingerprint (some current) r =
        commit_cases store now i
          (λ ran.
            (rethrow ran.registry ran.result
              (modify (schedule_terminal_retry store now i))).registry.command_queues
            ≡ r.command_queues)
          pending fingerprint current r (λ s error. schedule-queues (record r { store = s }))
          (λ after same. clear-queues after ∙ same)

    pub promote-queues :
        (pending : PendingTerminal) (fingerprint : String)
        → KeepsQueues (promote_pending_terminal store now i pending fingerprint)
    unfolding promote_pending_terminal commit_pending_terminal
    promote-queues pending fingerprint r =
        promote_of-queues pending fingerprint (lookup r.sessions i) r

    flush_pending-queues :
        (pending : Option PendingTerminal) (session : Option RegisteredSession)
        → (r : Registry S) → lookup r.sessions i ≡ session
        → (flush_pending store now i pending session r).registry.command_queues ≡ r.command_queues
    unfolding flush_pending commit_pending_terminal
    flush_pending-queues none session r live = refl
    flush_pending-queues (some pending) none r live =
        cancel_cases store now i
          (λ ran.
            (continue {B = Option String} ran.registry ran.result
              (λ done. pure none)).registry.command_queues
            ≡ r.command_queues)
          no_options r (λ s error. refl) (λ s. clear-queues (record r { store = s }))
    flush_pending-queues (some pending) (some current) r live =
        subst
          (λ (session : Option RegisteredSession). after_commit (
            commit_current store now i pending (store.fingerprint (input_of pending.event)) session
              r))
          (sym live)
          (commit_cases store now i after_commit pending
            (store.fingerprint (input_of pending.event)) current r
            (λ s error. schedule-queues (record r { store = s }))
            (λ after same. clear-queues after ∙ same))
      where
        after_commit : Ran S (Unit {0}) → Type 0
        after_commit ran =
            let whole =
              continue {B = Option String} ran.registry ran.result
                (λ done. pure (some pending.event.event_id)) in
            (recover whole.registry whole.result
              (modify (schedule_terminal_retry store now i) >> pure none)).registry.command_queues
            ≡ r.command_queues

    pub flush-queues : KeepsQueues (flush_delayed_terminal_event store now i)
    unfolding flush_delayed_terminal_event
    flush-queues r =
        if-elim (λ (ran : Ran S (Option String)). ran.registry.command_queues ≡ r.command_queues)
          (has_pending_command_work r i) (pure none r)
          (flush_pending store now i (lookup r.delayed_terminal_events i) (lookup r.sessions i) r)
          (λ h. refl) (λ h. flush_pending-queues _ _ r refl)
