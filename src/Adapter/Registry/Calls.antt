-- ===== src/Adapter/Registry/Calls.antt =====
-- The calls of the registry's methods, and the registries that are reached by them: what the server,
-- the driver and the timers do, in any order, apps/bridge/src/agent-adapter/registry.ts.
use ariava.Prelude.{ℕ, String, Bool, Option, ◌≡◌, ok}
use ariava.Store.State.{Timestamp, CanonicalSession, CommandResult}
use ariava.Adapter.{RegisterInput, EventInput, MutationReason}
use ariava.Adapter.Registration.{HeartbeatInput}
use ariava.Adapter.Registry.{Registry, StateStore, CommandEnvelope}
use ariava.Adapter.Registry.Action.{Action, pure, ◌>>=◌, modify}
use ariava.Adapter.Registry.Terminal.{flush_delayed_terminal_event, retry_timer_fires}
use ariava.Adapter.Registry.Queue.{
  enqueue_command, dequeue_command, poll_times_out, cancel_command_polls, wait_for_result,
  wait_times_out, resolve_command, abandon_command,
}
use ariava.Adapter.Registry.Owner.{unregister_session, assert_current_owner, heartbeat}
use ariava.Adapter.Registry.Register.{register_session}
use ariava.Adapter.Registry.Push.{push_event, push_event_source}
use ariava.Adapter.Registry.Listing.{list_sessions, dispose, HandleRequest, handle_session}

-- A call from outside, with what the clocks read and what is drawn at it.
pub data Call : Type 0 where
  registers : (now : Timestamp) (monotonic : ℕ) (fresh_lease : String) → RegisterInput → Call
  unregisters : (now : Timestamp) → String → MutationReason → Call
  asserts_owner : (now : Timestamp) (monotonic : ℕ) → (session instance_id lease : String) → Call
  beats : (now : Timestamp) (monotonic : ℕ) → String → HeartbeatInput → Call
  lists : (now : Timestamp) (monotonic : ℕ) → Call
  pushes : (now : Timestamp) (fresh_id : String) → String → EventInput → Call
  pushes_source :
      (now : Timestamp) (fresh_id : String)
      → (producer_event_id producer_event_order : String) → String
      → EventInput
      → Call
  handles : (now : Timestamp) → String → HandleRequest → Call
  enqueues : CommandEnvelope → Call
  polls : (waiter : ℕ) → String → (timeout_ms : ℕ) → Call
  poll_ends : (waiter : ℕ) → String → Call
  cancels_polls : Option String → Call
  awaits : (waiter : ℕ) → String → Call
  await_ends : (waiter : ℕ) → String → Call
  resolves : (now : Timestamp) → String → CommandResult → Option String → Call
  abandons : (now : Timestamp) → String → Call
  flushes : (now : Timestamp) → String → Call
  retries : (now : Timestamp) → String → Call
  disposes : Call

abbrev pub done_with : {S A : Type 0} → Action S A → Action S (Unit {0})
done_with action = action >>= λ value. pure tt

module _ {S : Type 0} (store : StateStore S) (fits : CanonicalSession → Bool)
    (is_blank : String → Bool) (order_of : String → Option ℕ) (host_id : String) where
  unfoldable pub perform : Call → Action S (Unit {0})
  perform (registers now monotonic fresh_lease input) =
      done_with (register_session store fits now monotonic fresh_lease host_id input)
  perform (unregisters now i reason) = done_with (unregister_session store now i reason)
  perform (asserts_owner now monotonic i instance_id lease) =
      assert_current_owner store now monotonic i instance_id lease
  perform (beats now monotonic i input) = done_with (heartbeat store now fits monotonic i input)
  perform (lists now monotonic) = done_with (list_sessions store now monotonic)
  perform (pushes now fresh_id i input) = done_with (push_event store now fresh_id i input)
  perform (pushes_source now fresh_id event_id order i input) =
      done_with (push_event_source store now fresh_id order_of event_id order i input)
  perform (handles now i request) = done_with (handle_session store now 0 is_blank i request)
  perform (enqueues command) = enqueue_command command
  perform (polls waiter i timeout_ms) = dequeue_command waiter i timeout_ms
  perform (poll_ends waiter i) = poll_times_out waiter i
  perform (cancels_polls i) = modify (cancel_command_polls i)
  perform (awaits waiter command_id) = modify (wait_for_result waiter command_id)
  perform (await_ends waiter command_id) = modify (wait_times_out waiter command_id)
  perform (resolves now command_id result submitted) =
      resolve_command store now command_id result submitted
  perform (abandons now command_id) = abandon_command store now command_id
  perform (flushes now i) = done_with (flush_delayed_terminal_event store now i)
  perform (retries now i) = retry_timer_fires store now i
  perform disposes = modify dispose

  -- A push is taken as a step only if it returns; every other call may throw.
  abbrev pub Counts : Call → Registry S → Type 0
  Counts (pushes now fresh_id i input) r = (perform (pushes now fresh_id i input) r).result ≡ ok tt
  Counts (pushes_source now fresh_id event_id order i input) r =
      (perform (pushes_source now fresh_id event_id order i input) r).result ≡ ok tt
  Counts call r = Unit

  pub data Reached (start : Registry S) : Registry S → Type 0 where
    starts : Reached start start
    calls :
        (r : Registry S) (call : Call)
        → Reached start r
        → Counts call r
        → Reached start (perform call r).registry
