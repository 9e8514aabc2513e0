-- ===== src/Adapter/Registry/Slots/Commands.antt =====
-- Commands that are enqueued, polls, retries, listings and the end of the registry: every staged
-- event stays waited for, and each queue its session's.
use ariava.Prelude.{
  ℕ, String, true, ◌≡◌, refl, ap, ◌∙◌, Option, none, some, List, [], ◌∷◌, ◌++◌, ◌==◌, string_eq,
  nat_eq, arith, eq_iff,
}
use ariava.Prelude.Dict.{Dict, lookup, lookup-insert_self}
use ariava.Adapter.{RegisteredSession}
use ariava.Adapter.Codec.{or_else}
use ariava.Adapter.Registry.{Registry, CommandEnvelope, polled}
use ariava.Adapter.Registry.Action.{Action, Ran, pure, fail, modify, emit}
use ariava.Adapter.Registry.Queue.{
  put_filled, queue_command, fly, bind_command, mark_live, mark_command_in_flight, hand_over,
  is_dispatch_ready, assert_command_dispatch_ready, bind_registered, enqueue_command, poll_later,
  take_command, dequeue_command,
}
use ariava.Adapter.Registry.Slots.{is_owned, Waits, Frames-Waits, if-elim, bind-keep}
use ariava.Adapter.Registry.Slots.Retries.{lookup-remove_self}
use ariava.Adapter.Registry.Slots.Work.{
  enqueue-Frames, enqueue-Ready, dequeue-Frames, dequeue-Ready,
}

append-owned :
    (i : String) (queue : List CommandEnvelope) (c : CommandEnvelope)
    → is_owned i (some queue) ≡ true
    → c.session_id ≡ i
    → is_owned i (some (queue ++ (c ∷ []))) ≡ true
append-owned i [] c own mine = ground (arith, eq_iff c.session_id i)
append-owned i (d ∷ ds) c own mine = ground (arith, append-owned i ds c)

or_empty-owned :
    (i : String) (queue : Option (List CommandEnvelope))
    → is_owned i queue ≡ true
    → is_owned i (some (or_else queue [])) ≡ true
or_empty-owned i none own = refl
or_empty-owned i (some queue) own = own

put_filled-owned :
    (d : Dict (List CommandEnvelope)) (i : String) (queue : List CommandEnvelope)
    → is_owned i (some queue) ≡ true
    → is_owned i (lookup (put_filled d i queue) i) ≡ true
unfolding put_filled
put_filled-owned d i [] own = ap (is_owned i) (lookup-remove_self d i)
put_filled-owned d i (c ∷ cs) own = ap (is_owned i) (lookup-insert_self d i (c ∷ cs)) ∙ own

module _ {S : Type 0} where
  abbrev OwnedAt : String → Registry S → Type 0
  OwnedAt i r = is_owned i (lookup r.command_queues i) ≡ true

  mark-owned :
      (i : String) (c : CommandEnvelope) (session : Option RegisteredSession) (r : Registry S)
      → OwnedAt i r
      → OwnedAt i (mark_live c session r).registry
  unfolding mark_live fly bind_command
  mark-owned i c none r own = own
  mark-owned i c (some session) r own = own

  queue-owned :
      (c : CommandEnvelope) (r : Registry S)
      → OwnedAt c.session_id r
      → OwnedAt c.session_id (queue_command c r)
  unfolding queue_command
  queue-owned c r own =
      ap (is_owned c.session_id) (lookup-insert_self r.command_queues c.session_id _)
      ∙ append-owned c.session_id (or_else (lookup r.command_queues c.session_id) []) c
          (or_empty-owned c.session_id (lookup r.command_queues c.session_id) own) refl

  hand_over-owned :
      (c : CommandEnvelope) (waiters : Option (List ℕ)) (r : Registry S)
      → OwnedAt c.session_id r
      → OwnedAt c.session_id (hand_over c waiters r).registry
  unfolding hand_over mark_command_in_flight
  hand_over-owned c none r own = queue-owned c r own
  hand_over-owned c (some []) r own = queue-owned c r own
  hand_over-owned c (some (waiter ∷ waiters)) r own =
      bind-keep (OwnedAt c.session_id) (mark_command_in_flight c)
        (λ done. emit (polled waiter (some c)))
        (record r { command_waiters = put_filled r.command_waiters c.session_id waiters })
        (mark-owned c.session_id c (lookup r.sessions c.session_id) _ own) (λ done own. own)

  bound-owned :
      (i : String) (c : CommandEnvelope) (session : Option RegisteredSession) (r : Registry S)
      → OwnedAt i r
      → OwnedAt i (bind_registered c session r)
  unfolding bind_registered bind_command
  bound-owned i c none r own = own
  bound-owned i c (some session) r own = own

  assert_ready-owned :
      (i : String) (c : CommandEnvelope) (r : Registry S)
      → OwnedAt i r
      → OwnedAt i (assert_command_dispatch_ready c r).registry
  unfolding assert_command_dispatch_ready
  assert_ready-owned i c r own =
      if-elim (λ (ran : Ran S (Unit {0})). OwnedAt i ran.registry) r.disposed (fail _ r) _
        (λ h. own)
        λ h.
          if-elim (λ (ran : Ran S (Unit {0})). OwnedAt i ran.registry)
            (is_dispatch_ready r c (lookup r.sessions c.session_id)) (pure tt r) (fail _ r)
            (λ h. own) (λ h. own)

  pub enqueue-Waits :
      (c : CommandEnvelope) (r : Registry S) → Waits r → Waits (enqueue_command c r).registry
  unfolding enqueue_command
  enqueue-Waits c r waits =
      Frames-Waits c.session_id r (enqueue_command c r).registry (enqueue-Frames c r)
        (enqueue-Ready c r (waits c.session_id).0)
        (bind-keep (OwnedAt c.session_id) (assert_command_dispatch_ready c) _ r
          (assert_ready-owned c.session_id c r (waits c.session_id).1)
          λ done own. hand_over-owned c _ _ (bound-owned c.session_id c _ _ own))
        waits

  later-owned :
      (i : String) (waiter timeout_ms : ℕ) (r : Registry S)
      → OwnedAt i r
      → OwnedAt i (poll_later waiter i timeout_ms r).registry
  unfolding poll_later
  later-owned i waiter timeout_ms r own =
      if-elim (λ (m : Action S (Unit {0})). OwnedAt i (m r).registry) (timeout_ms == 0)
        (emit (polled waiter none)) (modify _) (λ h. own) (λ h. own)

  take-owned :
      (i : String) (waiter timeout_ms : ℕ) (queue : Option (List CommandEnvelope)) (r : Registry S)
      → is_owned i queue ≡ true
      → OwnedAt i r
      → OwnedAt i (take_command waiter i timeout_ms queue r).registry
  unfolding take_command mark_command_in_flight
  take-owned i waiter timeout_ms none r queue_own own = later-owned i waiter timeout_ms r own
  take-owned i waiter timeout_ms (some []) r queue_own own = later-owned i waiter timeout_ms r own
  take-owned i waiter timeout_ms (some (c ∷ cs)) r queue_own own =
      bind-keep (OwnedAt i) (mark_command_in_flight c) (λ done. emit (polled waiter (some c)))
        (record r { command_queues = put_filled r.command_queues i cs })
        (mark-owned i c (lookup r.sessions c.session_id) _
          (put_filled-owned r.command_queues i cs (ground arith)))
        (λ done own. own)

  pub dequeue-Waits :
      (waiter : ℕ) (i : String) (timeout_ms : ℕ) (r : Registry S)
      → Waits r
      → Waits (dequeue_command waiter i timeout_ms r).registry
  unfolding dequeue_command
  dequeue-Waits waiter i timeout_ms r waits =
      Frames-Waits i r (dequeue_command waiter i timeout_ms r).registry
        (λ j other. dequeue-Frames waiter i timeout_ms r j (waits i).1 other)
        (dequeue-Ready waiter i timeout_ms r (waits i).1 (waits i).0)
        (if-elim (λ (ran : Ran S (Unit {0})). OwnedAt i ran.registry) r.disposed
          (emit (polled waiter none) r)
          (take_command waiter i timeout_ms (lookup r.command_queues i) r) (λ h. (waits i).1)
          (λ h.
            take-owned i waiter timeout_ms (lookup r.command_queues i) r (waits i).1 (waits i).1))
        waits
