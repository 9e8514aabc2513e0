-- ===== src/Adapter/Registry/Once/Later.antt =====
-- A result of a command is taken once, whatever is called afterwards,
-- apps/bridge/src/agent-adapter/registry.ts.
use ariava.Prelude.{
  ℕ, String, Bool, true, ◌≡◌, Option, none, some, List, [], ◌∷◌, string_eq, ok, throw,
}
use ariava.Prelude.Dict.{Dict, lookup}
use ariava.Store.State.{Timestamp, CommandResult, CanonicalSession}
use ariava.Adapter.{RegisteredSession, ttl, handle}
use ariava.Adapter.Registry.{Registry, StateStore, mutated}
use ariava.Adapter.Registry.Action.{Action, pure, fail, ◌>>◌, emit, write}
use ariava.Adapter.Registry.Terminal.{flush_delayed_terminal_event}
use ariava.Adapter.Registry.Queue.{resolve_command}
use ariava.Adapter.Registry.Owner.{
  has_expired, lose_ownership, unregister_session, assert_owner, assert_current_owner, heartbeat,
}
use ariava.Adapter.Registry.Register.{register_session}
use ariava.Adapter.Registry.Push.{push_event, push_event_source}
use ariava.Adapter.Registry.Listing.{
  list_sessions, collect_active, handle_session, handle_live, queue_handle, handle_of,
  HandleRequest,
}
use ariava.Adapter.Registry.Calls.{
  Call, registers, unregisters, asserts_owner, beats, lists, pushes, pushes_source, handles,
  enqueues, polls, poll_ends, cancels_polls, awaits, await_ends, resolves, abandons, flushes,
  retries, disposes, done_with, perform,
}
use ariava.Adapter.Registry.Slots.{if-elim, bind-keep}
use ariava.Adapter.Registry.Once.{
  is_other_command, is_unqueued, Gone, enqueue-Gone, dequeue-Gone, poll_ends-Gone, cancels-Gone,
  awaits-Gone, await_ends-Gone,
}
use ariava.Adapter.Registry.Once.Flushes.{flush-Gone}
use ariava.Adapter.Registry.Once.Results.{
  dispose-Gone, retry-Gone, resolve-Gone, abandon-Gone, lose-Gone, unregister-Gone,
}
use ariava.Adapter.Registry.Once.Renewals.{heartbeat-Gone, register-Gone}
use ariava.Adapter.Registry.Once.Pushes.{push-Gone, source-Gone}
use ariava.Adapter.Registry.Once.Taken.{taken-Gone, refused-Gone}

-- The call does not enqueue this command.
abbrev pub enqueues_no : String → Call → Bool
enqueues_no command_id (enqueues command) = is_other_command command_id command
enqueues_no command_id (registers now monotonic fresh_lease input) = true
enqueues_no command_id (unregisters now i reason) = true
enqueues_no command_id (asserts_owner now monotonic i instance_id lease) = true
enqueues_no command_id (beats now monotonic i input) = true
enqueues_no command_id (lists now monotonic) = true
enqueues_no command_id (pushes now fresh_id i input) = true
enqueues_no command_id (pushes_source now fresh_id event_id order i input) = true
enqueues_no command_id (handles now i request) = true
enqueues_no command_id (polls waiter i timeout_ms) = true
enqueues_no command_id (poll_ends waiter i) = true
enqueues_no command_id (cancels_polls i) = true
enqueues_no command_id (awaits waiter awaited) = true
enqueues_no command_id (await_ends waiter awaited) = true
enqueues_no command_id (resolves now resolved result submitted) = true
enqueues_no command_id (abandons now abandoned) = true
enqueues_no command_id (flushes now i) = true
enqueues_no command_id (retries now i) = true
enqueues_no command_id disposes = true

module _ {S : Type 0} (store : StateStore S) where
  module _ (c : String) where
    asserted-Gone :
        (now : Timestamp) (monotonic : ℕ) (i instance_id lease : String)
        (session : Option RegisteredSession) (r : Registry S)
        → Gone c r
        → Gone c (assert_owner store now monotonic i instance_id lease session r).registry
    unfolding assert_owner
    asserted-Gone now monotonic i instance_id lease none r gone = gone
    asserted-Gone now monotonic i instance_id lease (some session) r gone =
        if-elim (λ (m : Action S (Unit {0})). Gone c (m r).registry) (has_expired monotonic session)
          (lose_ownership store now session.fields.session_id ttl >> fail "stale_owner") _
          (λ h.
            bind-keep (Gone c) (lose_ownership store now session.fields.session_id ttl)
              (λ done. fail "stale_owner") r (lose-Gone c store now _ ttl r gone)
              (λ done kept. kept))
          (λ h.
            if-elim (λ (m : Action S (Unit {0})). Gone c (m r).registry) _ (fail "stale_owner")
              (pure tt) (λ h. gone) (λ h. gone))

    collected-Gone :
        (now : Timestamp) (monotonic : ℕ) (sessions : Dict RegisteredSession)
        (active : List CanonicalSession) (r : Registry S)
        → Gone c r
        → Gone c (collect_active store now monotonic sessions active r).registry
    unfolding collect_active
    collected-Gone now monotonic [] active r gone = gone
    collected-Gone now monotonic ((i, session) ∷ sessions) active r gone =
        if-elim (λ (m : Action S (List CanonicalSession)). Gone c (m r).registry)
          (has_expired monotonic session) _ _
          (λ h.
            bind-keep (Gone c) (unregister_session store now session.fields.session_id ttl) _ r
              (unregister-Gone c store now session.fields.session_id ttl r gone)
              λ done kept. collected-Gone now monotonic sessions active _ kept)
          (λ h. collected-Gone now monotonic sessions _ r gone)

    handled-Gone :
        (now : Timestamp) (is_blank : String → Bool) (i : String) (request : HandleRequest)
        (session : Option RegisteredSession) (r : Registry S)
        → Gone c r
        → Gone c (handle_live store now 0 is_blank i request session r).registry
    unfolding handle_live queue_handle handle_of
    handled-Gone now is_blank i request none r gone = gone
    handled-Gone now is_blank i request (some session) r gone =
        if-elim (λ (m : Action S String). Gone c (m r).registry)
          (is_blank request.handled_through_event_id) (fail "handledThroughEventId is required")
          (queue_handle store now 0 is_blank (handle_of store now 0 is_blank i request session))
          (λ h. gone)
          (λ h.
            bind-keep {B = String} (Gone c)
              (write (λ s.
                store.queue_pending_handle s (handle_of store now 0 is_blank i request session)))
              (λ done. emit (mutated handle) >> pure request.handled_through_event_id) r gone
              (λ done kept. kept))

    done-Gone :
        {A : Type 0} (m : Action S A) (r : Registry S)
        → Gone c (m r).registry
        → Gone c (done_with m r).registry
    done-Gone m r kept = bind-keep (Gone c) m (λ value. pure tt) r kept (λ value kept. kept)

    module _ (fits : CanonicalSession → Bool) (is_blank : String → Bool)
        (order_of : String → Option ℕ) (host_id : String) where
      perform-Gone :
          (call : Call) (r : Registry S)
          → enqueues_no c call ≡ true
          → Gone c r
          → Gone c (perform store fits is_blank order_of host_id call r).registry
      unfolding perform list_sessions handle_session assert_current_owner
      perform-Gone (registers now monotonic fresh_lease input) r h gone =
          done-Gone (register_session store fits now monotonic fresh_lease host_id input) r
            (register-Gone c store now fits monotonic fresh_lease host_id input r gone)
      perform-Gone (unregisters now i reason) r h gone =
          done-Gone (unregister_session store now i reason) r
            (unregister-Gone c store now i reason r gone)
      perform-Gone (asserts_owner now monotonic i instance_id lease) r h gone =
          asserted-Gone now monotonic i instance_id lease (lookup r.sessions i) r gone
      perform-Gone (beats now monotonic i input) r h gone =
          done-Gone (heartbeat store now fits monotonic i input) r
            (heartbeat-Gone c store now fits monotonic i input r gone)
      perform-Gone (lists now monotonic) r h gone =
          done-Gone (list_sessions store now monotonic) r (
            bind-keep (Gone c) (λ r. collect_active store now monotonic r.sessions [] r) _ r
              (collected-Gone now monotonic r.sessions [] r gone) (λ active kept. kept))
      perform-Gone (pushes now fresh_id i input) r h gone =
          done-Gone (push_event store now fresh_id i input) r
            (push-Gone c store now fresh_id i input r gone)
      perform-Gone (pushes_source now fresh_id event_id order i input) r h gone =
          done-Gone (push_event_source store now fresh_id order_of event_id order i input) r
            (source-Gone c store now fresh_id i input order_of event_id order r gone)
      perform-Gone (handles now i request) r h gone =
          done-Gone (handle_session store now 0 is_blank i request) r
            (handled-Gone now is_blank i request (lookup r.sessions i) r gone)
      perform-Gone (enqueues command) r h gone = enqueue-Gone c command r h gone
      perform-Gone (polls waiter i timeout_ms) r h gone = dequeue-Gone c waiter i timeout_ms r gone
      perform-Gone (poll_ends waiter i) r h gone = poll_ends-Gone c waiter i r gone
      perform-Gone (cancels_polls i) r h gone = cancels-Gone c i r gone
      perform-Gone (awaits waiter awaited) r h gone = awaits-Gone c waiter awaited r gone
      perform-Gone (await_ends waiter awaited) r h gone = await_ends-Gone c waiter awaited r gone
      perform-Gone (resolves now resolved result submitted) r h gone =
          resolve-Gone c store now resolved result submitted r gone
      perform-Gone (abandons now abandoned) r h gone = abandon-Gone c store now abandoned r gone
      perform-Gone (flushes now i) r h gone =
          done-Gone (flush_delayed_terminal_event store now i) r (flush-Gone c store now i r gone)
      perform-Gone (retries now i) r h gone = retry-Gone c store now i r gone
      perform-Gone disposes r h gone = dispose-Gone c r gone

      -- Any calls but enqueues of this command, whether they return or throw.
      pub data Follows (start : Registry S) : Registry S → Type 0 where
        stays : Follows start start
        goes_on :
            (r : Registry S) (call : Call)
            → Follows start r
            → enqueues_no c call ≡ true
            → Follows start (perform store fits is_blank order_of host_id call r).registry

      Follows-keep : {start r : Registry S} → Gone c start → Follows start r → Gone c r
      Follows-keep gone (stays) = gone
      Follows-keep gone (goes_on r call before other) =
          perform-Gone call r other (Follows-keep gone before)

      -- Once a result for a command is taken, and the command stands in no queue, every later result
      -- for it is refused, whatever it says, whoever submits it, and whatever calls of the methods come
      -- in between and whether they return or throw, as long as none of them enqueues the command again.
      pub resolve_once :
          (now later : Timestamp) (start r : Registry S) (result other : CommandResult)
          (submitted by : Option String)
          → is_unqueued c start.command_queues ≡ true
          → (resolve_command store now c result submitted start).result ≡ ok tt
          → Follows (resolve_command store now c result submitted start).registry r
          → (resolve_command store later c other by r).result
            ≡ throw
                "command result does not match its queued adapter command and registered Session"
      resolve_once now later start r result other submitted by unqueued taken follows =
          refused-Gone store later c r other by
            (Follows-keep (taken-Gone store now c start result submitted unqueued taken) follows)
