-- ===== src/Adapter/Tests/Live.antt =====
-- The registry of the agent adapter on a concrete session, event and command:
-- apps/bridge/src/agent-adapter/registry.ts.
use mathlib.Core.Path.{subst}
use ariava.Prelude.{true, false, ◌≡◌, ◌⊎◌, refl, ap, none, some, [], ◌∷◌, ok, throw}
use ariava.Prelude.Dict.{lookup, insert, remove}
use ariava.Store.State.{CommandResult, executed}
use ariava.Adapter.{RegisteredSession, PendingTerminal, RegisterInput, ttl, register}
use ariava.Adapter.Plan.{
  reservation_of, plan_new, is_live_duplicate, plan_at, plan_for, plan_reserved,
  to_canonical_session_state, plan_terminal_event, terminal_tuple,
}
use ariava.Adapter.Tests.{store, input, session, event, tuple}
use ariava.Adapter.Registry.{Registry, CommandEnvelope, mutated}
use ariava.Adapter.Registry.Action.{Ran}
use ariava.Adapter.Registry.Terminal.{
  flush_pending, commit_pending_terminal, commit_current, cancel_terminal_retry, cancel_durably,
  cancellation_of, commit_terminal_session, has_pending_command_work, flush_delayed_terminal_event,
}
use ariava.Adapter.Registry.Queue.{
  hand_over, bind_registered, binding_of, assert_command_dispatch_ready, bind_command,
  queue_command, enqueue_command, is_dispatch_ready, resolve_command, resolve_bound, accept_result,
  is_bound_result, clear_command_in_flight, land, settle_result_waiters, put_filled, delete_id,
}
use ariava.Adapter.Registry.Owner.{
  set_session, needs_event, assert_storable, has_expired, lose_ownership,
}
use ariava.Adapter.Registry.Register.{
  contend, lease_for, recover_from, store_registration, recover_terminal,
  restore_persisted_terminal, owned_session, check_authorized, register_over, recover_first,
  persist_registration, register_session,
}
use ariava.Adapter.Registry.Calls.{
  Call, Reached, starts, calls, pushes, enqueues, polls, registers, perform,
}
use ariava.Adapter.Registry.Slots.{is_some}
use ariava.Adapter.Registry.Waiting.{new_registry, never_stuck}
use ariava.Adapter.Registry.Outcomes.{Flushed, flush_commits}
use ariava.Adapter.Registry.Once.Later.{Follows, stays, goes_on, resolve_once}
use ariava.Adapter.Registry.Contention.{Refused, contender-Refused, lose_ownership-keeps_polls}
use ariava.Adapter.Registry.Push.{
  event_id_for, follow_plan, reservation_for, promote_when, stage_reserved, push_to, stage, follow,
  push_event, plan_input, tuple_for, check_event, reserve_and_stage,
}
use ariava.Adapter.Registration.{
  inherited_last_event_id, registered_fields, is_context_change, authorize_registration, route,
  is_semantic_change, reduce_registration, is_persisted_change,
}
use ariava.Adapter.Codec.{assert_context_matches}

abbrev owned : RegisteredSession
owned = record {
  fields = session;
  driver_instance_id = "driver1";
  owner_lease = "lease1";
  last_owner_lease_monotonic = 100;
}

-- The session is live, and an event of it is staged.
abbrev staged_registry : Registry (Unit {0})
staged_registry = record (new_registry "host1" tt) {
  sessions = ("s1", owned) ∷ [];
  delayed_terminal_events = ("s1", tuple) ∷ [];
}

live : lookup staged_registry.sessions "s1" ≡ some owned
unfolding lookup
live = refl

staged : lookup staged_registry.delayed_terminal_events "s1" ≡ some tuple
unfolding lookup
staged = refl

no_work : has_pending_command_work staged_registry "s1" ≡ false
unfolding lookup has_pending_command_work
no_work = refl

flush_commits_example :
    Flushed store 2000 "s1" tuple owned staged_registry
      (flush_delayed_terminal_event store 2000 "s1" staged_registry)
flush_commits_example =
    flush_commits store 2000 "s1" tuple owned staged_registry live staged no_work

abbrev takeover : RegisterInput
takeover = record input { driver_instance_id = "driver2" }

lasts : has_expired 3000 owned ≡ false
unfolding has_expired
lasts = refl

contender-Refused_example :
    Refused store 2000 staged_registry
      (register_session store (λ c. true) 2000 3000 "lease2" "host1" takeover staged_registry)
contender-Refused_example =
    contender-Refused store 2000 (λ c. true) 3000 "lease2" "host1" owned takeover staged_registry
      live lasts refl

-- A poll of the session waits.
abbrev polled_registry : Registry (Unit {0})
polled_registry = record staged_registry { command_waiters = ("s1", 4 ∷ []) ∷ [] }

lose_ownership-keeps_polls_example :
    (lose_ownership store 2000 "s1" ttl polled_registry).registry.command_waiters
    ≡ ("s1", 4 ∷ []) ∷ []
lose_ownership-keeps_polls_example = lose_ownership-keeps_polls store 2000 "s1" ttl polled_registry

abbrev command : CommandEnvelope
command = record { command_id = "c1"; host_id = "host1"; session_id = "s1"; content = "reply" }

-- The command is bound and in flight.
abbrev flying_registry : Registry (Unit {0})
flying_registry = record staged_registry {
  command_sessions = ("c1", record { host_id = "host1"; session_id = "s1"; provider = "pi" }) ∷ [];
  in_flight_commands = ("s1", "c1" ∷ []) ∷ [];
}

abbrev result : CommandResult
result = record {
  command_id = "c1";
  host_id = "host1";
  session_id = "s1";
  accepted = true;
  status = executed;
  updated_at = 2500;
}

taken : (resolve_command store 2000 "c1" result none flying_registry).result ≡ ok tt
unfolding lookup remove resolve_command resolve_bound accept_result is_bound_result
    clear_command_in_flight land settle_result_waiters flush_delayed_terminal_event
    has_pending_command_work put_filled delete_id flush_pending commit_pending_terminal
    commit_current cancel_terminal_retry cancel_durably cancellation_of commit_terminal_session
taken = refl

abbrev run_call : Call → Registry (Unit {0}) → Ran (Unit {0}) (Unit {0})
run_call = perform store (λ c. true) (λ t. false) (λ o. none) "host1"

abbrev step : Call → Registry (Unit {0}) → Registry (Unit {0})
step call r = (run_call call r).registry

-- The poll of the session, and an enqueue of another command for it.
abbrev FollowsTaken : Registry (Unit {0}) → Type 0
FollowsTaken =
    Follows store "c1" (λ c. true) (λ t. false) (λ o. none) "host1"
      (resolve_command store 2000 "c1" result none flying_registry).registry

abbrev polled_then_enqueued : Registry (Unit {0}) → Registry (Unit {0})
polled_then_enqueued r =
    step (enqueues (record command { command_id = "c2" })) (step (polls 4 "s1" 0) r)

goes_on_so :
    FollowsTaken
      (polled_then_enqueued (resolve_command store 2000 "c1" result none flying_registry).registry)
goes_on_so =
    goes_on _ (enqueues (record command { command_id = "c2" }))
      (goes_on _ (polls 4 "s1" 0) stays refl) refl

resolve_once_example :
    (resolve_command store 2500 "c1" result none (
      polled_then_enqueued
        (resolve_command store 2000 "c1" result none flying_registry).registry)).result
    ≡ throw "command result does not match its queued adapter command and registered Session"
resolve_once_example =
    resolve_once store "c1" (λ c. true) (λ t. false) (λ o. none) "host1" 2000 2500 flying_registry
      (polled_then_enqueued (resolve_command store 2000 "c1" result none flying_registry).registry)
      result result none none refl taken goes_on_so

-- The session registers, a command for it is enqueued, and its event is pushed while that waits.
abbrev fresh : Registry (Unit {0})
fresh = new_registry "host1" tt

abbrev first_session : RegisteredSession
first_session = record {
  fields = record session { last_event_id = none };
  driver_instance_id = "driver1";
  owner_lease = "lease1";
  last_owner_lease_monotonic = 100;
}

abbrev registered : Registry (Unit {0})
registered = record fresh { sessions = ("s1", first_session) ∷ []; effects = mutated register ∷ [] }

registers_is : step (registers 1000 100 "lease1" input) fresh ≡ registered
unfolding perform register_session register_over recover_terminal lookup check_authorized
    authorize_registration contend store_registration assert_storable needs_event
    reduce_registration is_semantic_change registered_fields persist_registration route set_session
    owned_session lease_for insert is_context_change is_persisted_change recover_from recover_first
    restore_persisted_terminal inherited_last_event_id to_canonical_session_state
registers_is = refl

abbrev busy : Registry (Unit {0})
busy = record registered {
  command_queues = ("s1", command ∷ []) ∷ [];
  command_sessions = ("c1", record { host_id = "host1"; session_id = "s1"; provider = "pi" }) ∷ [];
}

enqueues_is : step (enqueues command) registered ≡ busy
unfolding perform enqueue_command assert_command_dispatch_ready is_dispatch_ready lookup hand_over
    bind_registered bind_command queue_command insert binding_of
enqueues_is = refl

abbrev first_tuple : PendingTerminal
first_tuple = terminal_tuple (record session { last_event_id = none }) event "e1"

abbrev pushed : Registry (Unit {0})
pushed = record busy { delayed_terminal_events = ("s1", first_tuple) ∷ [] }

push_is : run_call (pushes 1500 "e1" "s1" event) busy ≡ record { registry = pushed; result = ok tt }
unfolding perform push_event push_to lookup check_event assert_context_matches follow_plan follow
    plan_terminal_event plan_at plan_input plan_for is_live_duplicate plan_reserved reservation_for
    plan_new reserve_and_stage stage promote_when insert has_pending_command_work tuple_for
    event_id_for terminal_tuple reservation_of stage_reserved to_canonical_session_state
push_is = refl

abbrev ReachedFrom : Registry (Unit {0}) → Type 0
ReachedFrom = Reached store (λ c. true) (λ t. false) (λ o. none) "host1" fresh

reached : ReachedFrom pushed
reached =
    subst (λ ran. ReachedFrom ran.registry) push_is
      (calls busy (pushes 1500 "e1" "s1" event)
        (subst ReachedFrom enqueues_is (
          calls registered (enqueues command)
            (subst ReachedFrom registers_is
              (calls fresh (registers 1000 100 "lease1" input) starts tt))
            tt))
        (ap (λ ran. ran.result) push_is))

is_staged : lookup pushed.delayed_terminal_events "s1" ≡ some first_tuple
unfolding lookup
is_staged = refl

never_stuck_example :
    (is_some (lookup pushed.sessions "s1") ≡ true)
    × ((has_pending_command_work pushed "s1" ≡ true)
        ⊎ (is_some (lookup pushed.terminal_retry_timers "s1") ≡ true))
never_stuck_example =
    never_stuck store (λ c. true) (λ t. false) (λ o. none) "host1" "s1" tt pushed first_tuple
      reached refl is_staged
