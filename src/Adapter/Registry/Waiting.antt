-- ===== src/Adapter/Registry/Waiting.antt =====
-- The registry after any calls of its methods, in any order: no staged event is ever stuck.
use ariava.Prelude.{
  ℕ, String, Bool, true, false, ◌≡◌, refl, ◌⊎◌, Option, some, [], Result, ok, throw, arith,
}
use ariava.Prelude.Dict.{lookup}
use ariava.Store.State.{CanonicalSession}
use ariava.Adapter.{PendingTerminal}
use ariava.Adapter.Registry.{Registry, StateStore}
use ariava.Adapter.Registry.Action.{Action, pure, continue}
use ariava.Adapter.Registry.Terminal.{has_pending_command_work, flush_delayed_terminal_event}
use ariava.Adapter.Registry.Owner.{unregister_session, heartbeat}
use ariava.Adapter.Registry.Register.{register_session}
use ariava.Adapter.Registry.Push.{push_event, push_event_source}
use ariava.Adapter.Registry.Listing.{list_sessions, handle_session, collect_active}
use ariava.Adapter.Registry.Calls.{
  Call, registers, unregisters, asserts_owner, beats, lists, pushes, pushes_source, handles,
  enqueues, polls, poll_ends, cancels_polls, awaits, await_ends, resolves, abandons, flushes,
  retries, disposes, done_with, perform, Counts, Reached, starts, calls,
}
use ariava.Adapter.Registry.Slots.{is_some, Waits, bind-keep}
use ariava.Adapter.Registry.Slots.Commands.{enqueue-Waits, dequeue-Waits}
use ariava.Adapter.Registry.Slots.Results.{resolve-Waits, abandon-Waits}
use ariava.Adapter.Registry.Slots.Owners.{unregister-Waits, assert_owner_now-Waits}
use ariava.Adapter.Registry.Slots.Renewals.{heartbeat-Waits, register-Waits}
use ariava.Adapter.Registry.Pushes.Returned.{push-Waits, source-Waits}
use ariava.Adapter.Registry.Slots.Others.{
  flush-Waits, retry-Waits, unregistered-Waits, handled-Waits, poll_ends-Waits, cancels-Waits,
  awaits-Waits, await_ends-Waits, dispose-Waits,
}

module _ {S : Type 0} where
  done-Waits :
      {A : Type 0} (m : Action S A) (r : Registry S)
      → Waits (m r).registry
      → Waits (done_with m r).registry
  done-Waits m r kept = bind-keep Waits m (λ value. pure tt) r kept (λ value kept. kept)

  -- A method that is done has returned, and the registry is as it left it.
  returned :
      {A : Type 0} (m : Action S A) (r : Registry S)
      → ((a : A) → (m r).result ≡ ok a → Waits (m r).registry)
      → (done_with m r).result ≡ ok tt
      → Waits (done_with m r).registry
  returned {A} m r waits h = of_result (m r).result refl h
    where
      of_result :
          (result : Result String A)
          → (m r).result ≡ result
          → (continue (m r).registry result (λ value. pure tt)).result ≡ ok tt
          → Waits (done_with m r).registry
      of_result (ok a) e h = done-Waits m r (waits a e)
      of_result (throw error) e h = cc

  module _ (store : StateStore S) (fits : CanonicalSession → Bool) (is_blank : String → Bool)
      (order_of : String → Option ℕ) (host_id : String) where
    perform-Waits :
        (call : Call) (r : Registry S)
        → Waits r
        → Counts store fits is_blank order_of host_id call r
        → Waits (perform store fits is_blank order_of host_id call r).registry
    unfolding perform list_sessions handle_session
    perform-Waits (registers now monotonic fresh_lease input) r waits counts =
        done-Waits (register_session store fits now monotonic fresh_lease host_id input) r
          (register-Waits store now fits monotonic fresh_lease host_id input r waits)
    perform-Waits (unregisters now i reason) r waits counts =
        done-Waits (unregister_session store now i reason) r
          (unregister-Waits store now i reason r waits)
    perform-Waits (asserts_owner now monotonic i instance_id lease) r waits counts =
        assert_owner_now-Waits store now monotonic i instance_id lease r waits
    perform-Waits (beats now monotonic i input) r waits counts =
        done-Waits (heartbeat store now fits monotonic i input) r
          (heartbeat-Waits store now fits monotonic i input r waits)
    perform-Waits (lists now monotonic) r waits counts =
        done-Waits (list_sessions store now monotonic) r (
          bind-keep Waits (λ r. collect_active store now monotonic r.sessions [] r) _ r
            (unregistered-Waits store now monotonic r.sessions [] r waits) (λ active kept. kept))
    perform-Waits (pushes now fresh_id i input) r waits counts =
        returned (push_event store now fresh_id i input) r
          (push-Waits store now fresh_id i input r waits) counts
    perform-Waits (pushes_source now fresh_id event_id order i input) r waits counts =
        returned (push_event_source store now fresh_id order_of event_id order i input) r
          (source-Waits store now fresh_id i input order_of event_id order r waits) counts
    perform-Waits (handles now i request) r waits counts =
        done-Waits (handle_session store now 0 is_blank i request) r
          (handled-Waits store now is_blank i request (lookup r.sessions i) r waits)
    perform-Waits (enqueues command) r waits counts = enqueue-Waits command r waits
    perform-Waits (polls waiter i timeout_ms) r waits counts =
        dequeue-Waits waiter i timeout_ms r waits
    perform-Waits (poll_ends waiter i) r waits counts = poll_ends-Waits store waiter i r waits
    perform-Waits (cancels_polls i) r waits counts = cancels-Waits store i r waits
    perform-Waits (awaits waiter command_id) r waits counts =
        awaits-Waits store waiter command_id r waits
    perform-Waits (await_ends waiter command_id) r waits counts =
        await_ends-Waits store waiter command_id r waits
    perform-Waits (resolves now command_id result submitted) r waits counts =
        resolve-Waits store now command_id result submitted r waits
    perform-Waits (abandons now command_id) r waits counts =
        abandon-Waits store now command_id r waits
    perform-Waits (flushes now i) r waits counts =
        done-Waits (flush_delayed_terminal_event store now i) r (flush-Waits store now i r waits)
    perform-Waits (retries now i) r waits counts = retry-Waits store now i r waits
    perform-Waits disposes r waits counts = dispose-Waits store r waits

    calls_keep :
        {start r : Registry S}
        → Waits start
        → Reached store fits is_blank order_of host_id start r
        → Waits r
    calls_keep waits (starts) = waits
    calls_keep waits (calls r call before counts) =
        perform-Waits call r (calls_keep waits before) counts

-- A registry as its constructor makes it.
abbrev pub new_registry : {S : Type 0} → String → S → Registry S
new_registry host_id store = record {
  host_id = host_id;
  store = store;
  sessions = [];
  command_queues = [];
  command_waiters = [];
  results = [];
  result_waiters = [];
  command_sessions = [];
  in_flight_commands = [];
  delayed_terminal_events = [];
  terminal_retry_attempts = [];
  terminal_retry_timers = [];
  orphaned_command_ids = [];
  disposed = false;
  effects = [];
}

new-Waits : {S : Type 0} (host_id : String) (s : S) → Waits (new_registry host_id s)
unfolding lookup
new-Waits host_id s j = (refl, refl)

-- Whatever is called, in whatever order, and whichever writes of the state store fail in between: a
-- terminal event that is staged in a registry that has not ended is never stuck. Its session is live,
-- and command work is pending for it, after which it is flushed, or a timer is set to retry it.
-- Pushes that throw are left out: their caller pushes again.
pub never_stuck :
    {S : Type 0} (store : StateStore S) (fits : CanonicalSession → Bool) (is_blank : String → Bool)
    (order_of : String → Option ℕ) (host_id i : String) (s : S) (r : Registry S)
    (pending : PendingTerminal)
    → Reached store fits is_blank order_of host_id (new_registry host_id s) r
    → r.disposed ≡ false
    → lookup r.delayed_terminal_events i ≡ some pending
    → (is_some (lookup r.sessions i) ≡ true)
      × ((has_pending_command_work r i ≡ true)
          ⊎ (is_some (lookup r.terminal_retry_timers i) ≡ true))
unfolding has_pending_command_work
never_stuck store fits is_blank order_of host_id i s r pending reached live staged =
    ground
      (arith, (calls_keep store fits is_blank order_of host_id (new-Waits host_id s) reached i).0)
