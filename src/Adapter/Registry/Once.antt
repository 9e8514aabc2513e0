-- ===== src/Adapter/Registry/Once.antt =====
-- A result of a command is taken once: what the registry's methods keep of a command that it no
-- longer has, apps/bridge/src/agent-adapter/registry.ts.
pub mod Flushes
pub mod Results
pub mod Renewals
pub mod Pushes
pub mod Taken
pub mod Later
use mathlib.Core.Path.{subst}
use ariava.Prelude.{
  ℕ, String, Bool, true, false, not, ◌&&◌, ◌||◌, ◌≡◌, refl, sym, ap, ◌∙◌, Option, none, some, List,
  [], ◌∷◌, ◌++◌, all, if◌then◌else◌, ◌==◌, ◌!=◌, string_eq, nat_eq, Result, ok, throw, arith,
  eq_iff, Bool-cases, not-eq-true, inl, inr,
}
use ariava.Prelude.Dict.{
  Dict, lookup, insert, remove, lookup-remove, lookup-insert, lookup-insert_ne, keys, values,
}
use ariava.Store.State.{Timestamp, CommandResult, CanonicalSession}
use ariava.Adapter.{RegisteredSession, PendingTerminal}
use ariava.Adapter.Codec.{or_else, input_of}
use ariava.Adapter.Registry.{Registry, StateStore, Binding, CommandEnvelope, Effect, polled}
use ariava.Adapter.Registry.Action.{Action, Ran, pure, fail, continue, ◌>>=◌, ◌>>◌, modify, emit}
use ariava.Adapter.Registry.Terminal.{
  clear_retry, arm_retry, schedule_terminal_retry, commit_terminal_session, cancel_terminal_retry,
  CancelOptions, no_options, commit_current, commit_pending_terminal, flush_pending,
  flush_delayed_terminal_event, retry_timer_fires, has_pending_command_work,
  from_canonical_terminal_session,
}
use ariava.Adapter.Registry.Queue.{
  put_filled, queue_command, fly, bind_command, mark_live, mark_command_in_flight, hand_over,
  is_dispatch_ready, assert_command_dispatch_ready, bind_registered, enqueue_command, poll_later,
  take_command, dequeue_command, poll_times_out, cancel_command_polls, wait_unless, wait_for_result,
  wait_times_out, settle_result_waiters, land, clear_command_in_flight, accept_result,
  resolve_bound, resolve_command, is_bound_result, abandon_bound, abandon_command, waits,
}
use ariava.Adapter.Registry.Slots.{if-elim, bind-keep}
use ariava.Adapter.Registry.Slots.Ready.{cancel_cases}
use ariava.Adapter.Registry.Outcomes.{flushed, committed_registry, commit-ok, commit-thrown}

-- The command stands in none of the queues.
abbrev pub is_other_command : String → CommandEnvelope → Bool
is_other_command command_id command = command.command_id != command_id

abbrev pub is_unqueued : String → Dict (List CommandEnvelope) → Bool
is_unqueued command_id [] = true
is_unqueued command_id ((session_id, queue) ∷ queues) =
    all (is_other_command command_id) queue && is_unqueued command_id queues

abbrev pub others_in : String → Option (List CommandEnvelope) → Bool
others_in command_id none = true
others_in command_id (some queue) = all (is_other_command command_id) queue

module _ (c : String) where
  unqueued-lookup :
      (d : Dict (List CommandEnvelope)) (i : String)
      → is_unqueued c d ≡ true
      → others_in c (lookup d i) ≡ true
  unfolding lookup
  unqueued-lookup [] i h = refl
  unqueued-lookup ((j, queue) ∷ d) i h = ground (arith, unqueued-lookup d i)

  unqueued-insert :
      (d : Dict (List CommandEnvelope)) (i : String) (queue : List CommandEnvelope)
      → is_unqueued c d ≡ true
      → all (is_other_command c) queue ≡ true
      → is_unqueued c (insert d i queue) ≡ true
  unfolding insert
  unqueued-insert [] i queue h q = ground arith
  unqueued-insert ((j, other) ∷ d) i queue h q = ground (arith, unqueued-insert d i queue)

  pub unqueued-remove :
      (d : Dict (List CommandEnvelope)) (i : String)
      → is_unqueued c d ≡ true
      → is_unqueued c (remove d i) ≡ true
  unfolding remove
  unqueued-remove [] i h = refl
  unqueued-remove ((j, other) ∷ d) i h = ground (arith, unqueued-remove d i)

  unqueued-put :
      (d : Dict (List CommandEnvelope)) (i : String) (queue : List CommandEnvelope)
      → is_unqueued c d ≡ true
      → all (is_other_command c) queue ≡ true
      → is_unqueued c (put_filled d i queue) ≡ true
  unfolding put_filled
  unqueued-put d i [] h q = unqueued-remove d i h
  unqueued-put d i (k ∷ ks) h q = unqueued-insert d i (k ∷ ks) h q

  others-append :
      (queue : Option (List CommandEnvelope)) (k : CommandEnvelope)
      → others_in c queue ≡ true
      → is_other_command c k ≡ true
      → all (is_other_command c) (or_else queue [] ++ (k ∷ [])) ≡ true
  others-append none k h o = ground arith
  others-append (some []) k h o = ground arith
  others-append (some (j ∷ js)) k h o = ground (arith, others-append (some js) k)

  pub removed-unbound :
      (d : Dict Binding) (k : String) → lookup d c ≡ none → lookup (remove d k) c ≡ none
  removed-unbound d k h = ground (arith, lookup-remove d k c)

  module _ {S : Type 0} where
    -- The registry has no binding of the command, and it stands in none of its queues.
    abbrev pub Gone : Registry S → Type 0
    Gone r = (lookup r.command_sessions c ≡ none) × (is_unqueued c r.command_queues ≡ true)

    bound-Gone :
        (k : CommandEnvelope) (session : RegisteredSession) (r : Registry S)
        → is_other_command c k ≡ true
        → Gone r
        → Gone (bind_command k session r)
    unfolding bind_command
    bound-Gone k session r o gone =
        (lookup-insert_ne r.command_sessions k.command_id c _ (not-eq-true _ o) ∙ gone.0, gone.1)

    mark-Gone :
        (k : CommandEnvelope) (session : Option RegisteredSession) (r : Registry S)
        → is_other_command c k ≡ true
        → Gone r
        → Gone (mark_live k session r).registry
    unfolding mark_live fly
    mark-Gone k none r o gone = gone
    mark-Gone k (some session) r o gone = bound-Gone k session r o gone

    queue-Gone :
        (k : CommandEnvelope) (r : Registry S)
        → is_other_command c k ≡ true
        → Gone r
        → Gone (queue_command k r)
    unfolding queue_command
    queue-Gone k r o gone = (
      gone.0,
      unqueued-insert r.command_queues k.session_id _ gone.1 (
          others-append (lookup r.command_queues k.session_id) k
            (unqueued-lookup r.command_queues k.session_id gone.1) o),
    )

    hand_over-Gone :
        (k : CommandEnvelope) (waiters : Option (List ℕ)) (r : Registry S)
        → is_other_command c k ≡ true
        → Gone r
        → Gone (hand_over k waiters r).registry
    unfolding hand_over mark_command_in_flight
    hand_over-Gone k none r o gone = queue-Gone k r o gone
    hand_over-Gone k (some []) r o gone = queue-Gone k r o gone
    hand_over-Gone k (some (waiter ∷ waiters)) r o gone =
        bind-keep Gone (mark_command_in_flight k) (λ done. emit (polled waiter (some k)))
          (record r { command_waiters = put_filled r.command_waiters k.session_id waiters })
          (mark-Gone k (lookup r.sessions k.session_id) _ o gone) (λ done kept. kept)

    pub enqueue-Gone :
        (k : CommandEnvelope) (r : Registry S)
        → is_other_command c k ≡ true
        → Gone r
        → Gone (enqueue_command k r).registry
    unfolding enqueue_command assert_command_dispatch_ready bind_registered
    enqueue-Gone k r o gone =
        bind-keep Gone (assert_command_dispatch_ready k) _ r ready
          λ done kept. hand_over-Gone k _ _ o (registered (lookup _ k.session_id) _ kept)
      where
        ready : Gone (assert_command_dispatch_ready k r).registry
        ready =
            if-elim (λ (ran : Ran S (Unit {0})). Gone ran.registry) r.disposed (fail _ r) _
              (λ h. gone)
              λ h.
                if-elim (λ (ran : Ran S (Unit {0})). Gone ran.registry)
                  (is_dispatch_ready r k (lookup r.sessions k.session_id)) (pure tt r) (fail _ r)
                  (λ h. gone) (λ h. gone)

        registered :
            (session : Option RegisteredSession) (r : Registry S)
            → Gone r
            → Gone (bind_registered k session r)
        registered none r gone = gone
        registered (some session) r gone = bound-Gone k session r o gone

    take-Gone :
        (waiter : ℕ) (i : String) (timeout_ms : ℕ) (queue : Option (List CommandEnvelope))
        (r : Registry S)
        → others_in c queue ≡ true
        → Gone r
        → Gone (take_command waiter i timeout_ms queue r).registry
    unfolding take_command mark_command_in_flight poll_later
    take-Gone waiter i timeout_ms (some (k ∷ ks)) r others gone =
        bind-keep Gone (mark_command_in_flight k) (λ done. emit (polled waiter (some k)))
          (record r { command_queues = put_filled r.command_queues i ks })
          (mark-Gone k (lookup r.sessions k.session_id) _ (ground arith)
            (gone.0, unqueued-put r.command_queues i ks gone.1 (ground arith)))
          (λ done kept. kept)
    take-Gone waiter i timeout_ms none r others gone =
        if-elim (λ (m : Action S (Unit {0})). Gone (m r).registry) (timeout_ms == 0)
          (emit (polled waiter none)) (modify _) (λ h. gone) (λ h. gone)
    take-Gone waiter i timeout_ms (some []) r others gone =
        if-elim (λ (m : Action S (Unit {0})). Gone (m r).registry) (timeout_ms == 0)
          (emit (polled waiter none)) (modify _) (λ h. gone) (λ h. gone)

    pub dequeue-Gone :
        (waiter : ℕ) (i : String) (timeout_ms : ℕ) (r : Registry S)
        → Gone r
        → Gone (dequeue_command waiter i timeout_ms r).registry
    unfolding dequeue_command
    dequeue-Gone waiter i timeout_ms r gone =
        if-elim (λ (ran : Ran S (Unit {0})). Gone ran.registry) r.disposed
          (emit (polled waiter none) r)
          (take_command waiter i timeout_ms (lookup r.command_queues i) r) (λ h. gone)
          (λ h.
            take-Gone waiter i timeout_ms (lookup r.command_queues i) r
              (unqueued-lookup r.command_queues i gone.1) gone)

    pub poll_ends-Gone :
        (waiter : ℕ) (i : String) (r : Registry S)
        → Gone r
        → Gone (poll_times_out waiter i r).registry
    unfolding poll_times_out
    poll_ends-Gone waiter i r gone =
        if-elim (λ (ran : Ran S (Unit {0})). Gone ran.registry)
          (waits waiter (or_else (lookup r.command_waiters i) [])) (pure tt _) (pure tt r)
          (λ h. gone) (λ h. gone)

    pub cancels-Gone :
        (i : Option String) (r : Registry S) → Gone r → Gone (cancel_command_polls i r)
    unfolding cancel_command_polls
    cancels-Gone none r gone = gone
    cancels-Gone (some i) r gone = gone

    pub awaits-Gone :
        (waiter : ℕ) (command_id : String) (r : Registry S)
        → Gone r
        → Gone (wait_for_result waiter command_id r)
    unfolding wait_for_result wait_unless
    awaits-Gone waiter command_id r gone =
        if-elim Gone r.disposed _ _ (λ h. gone) (λ h. unless (lookup r.results command_id))
      where
        unless : (result : Option CommandResult) → Gone (wait_unless waiter command_id result r)
        unless none = gone
        unless (some result) = gone

    pub await_ends-Gone :
        (waiter : ℕ) (command_id : String) (r : Registry S)
        → Gone r
        → Gone (wait_times_out waiter command_id r)
    unfolding wait_times_out
    await_ends-Gone waiter command_id r gone =
        if-elim Gone (waits waiter (or_else (lookup r.result_waiters command_id) [])) _ r
          (λ h. gone) (λ h. gone)
