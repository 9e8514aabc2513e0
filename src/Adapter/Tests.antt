-- ===== src/Adapter/Tests.antt =====
-- The agent adapter on a concrete store, session and event: apps/bridge/src/agent-adapter.
mod Live
use ariava.Prelude.{
  ℕ, String, Bool, true, false, ◌≡◌, ◌≢◌, ◌↔◌, ◌⊎◌, refl, Option, none, some, List, [], ◌∷◌, Result,
  ok, throw, not, ◌!=◌, inl, inr,
}
use ariava.Prelude.Dict.{Dict, lookup, insert}
use ariava.Store.State.{
  Timestamp, SessionStatus, idle, working, EventKind, done, CanonicalEvent, CanonicalSession,
  Reservation, CommandResult,
}
use ariava.Adapter.{
  SessionFields, RegisteredSession, RegisterInput, EventInput, PendingTerminal, ttl,
}
use ariava.Adapter.Codec.{
  assert_context_matches, producer_context, canonical_context, semantic_fingerprint,
}
use ariava.Adapter.Registration.{
  Evidence, reduce_registration, registered_fields, is_semantic_change, inherited_last_event_id,
}
use ariava.Adapter.Registration.Renewal.{renewed, register-again, Inherited, renewed-Inherited}
use ariava.Adapter.Plan.{
  PlanInput, terminal_tuple, reservation_of, plan_terminal_event, plan_at, plan_for, plan_reserved,
  plan_new, is_live_duplicate, return_live_duplicate,
}
use ariava.Adapter.Plan.Duplicates.{
  PlansCoherently, plan-Coherent, StagesNew, Accepted, IsKnown, Repeats, plan-again,
}
use ariava.Adapter.Registry.{StateStore, Registry, Wrote, CommandEnvelope}

-- A state store that forgets what is written and never throws.
abbrev written : Wrote (Unit {0})
written = record { next = tt; result = ok tt }

abbrev pub store : StateStore (Unit {0})
store = record {
  fingerprint = λ e. e.agent_text;
  get_session = λ s i. none;
  get_driver_name = λ s i. none;
  set_session_driver = λ s i d c. written;
  remove_session = λ s i d. written;
  get_cancellation = λ s i. none;
  cancel_terminal_event = λ s q. written;
  reserve_tuple = λ s p f. written;
  get_tuple = λ s i f. none;
  reserve_event = λ s q. written;
  accept_source = λ s q c. written;
  get_reservation = λ s i f. none;
  list_reservations = λ s i. [];
  get_recent_event = λ s i. none;
  get_checkpoint = λ s i. none;
  queue_pending_event = λ s p f. written;
  queue_pending_handle = λ s h. written;
  mark_outcome_unknown = λ s c. written;
}

abbrev pub input : RegisterInput
input = record {
  session_id = "s1";
  provider = "pi";
  project_name = "ariava";
  cwd = "/work";
  name_text = "fix the build";
  opening_text = none;
  latest_activity_text = none;
  harness_provider = none;
  pid = some 7;
  status = some working;
  driver_instance_id = "driver1";
}

abbrev no_evidence : Evidence
no_evidence = record {
  previous_live = none;
  persisted_session = none;
  terminal_cancellation = none;
}

abbrev pub session : SessionFields
session = record {
  session_id = "s1";
  provider = "pi";
  project_name = "ariava";
  cwd = "/work";
  name_text = "fix the build";
  opening_text = none;
  latest_activity_text = none;
  harness_provider = none;
  pid = some 7;
  host_id = "host1";
  registered_at = 1000;
  last_heartbeat_at = 1000;
  status = working;
  semantic_updated_at = 1000;
  last_event_id = some "e0";
}

abbrev with_session : Evidence
with_session = record no_evidence { previous_live = some session }

inherits : (renewed with_session input "host1" 2000).last_event_id ≡ some "e0"
unfolding reduce_registration registered_fields is_semantic_change inherited_last_event_id
    producer_context semantic_fingerprint
inherits = refl

renewed-Inherited_example : Inherited (some session) none input "e0"
renewed-Inherited_example = renewed-Inherited with_session input "host1" 2000 "e0" inherits

abbrev pub event : EventInput
event = record {
  session_id = "s1";
  provider = "pi";
  kind = done;
  agent_text = "the build is green";
  human_text = none;
  project_name = some "ariava";
  working_directory = some "/work";
  harness_provider = some "pi";
  created_at = 1500;
}

abbrev first_push : PlanInput
first_push = record {
  session = some session;
  live_pending = none;
  persisted_reservation = none;
  persisted_tuple = none;
  has_pending_command_work = true;
  input = event;
  event_id = "e1";
}

abbrev pub tuple : PendingTerminal
tuple = terminal_tuple session event "e1"

-- The tuple was committed meanwhile: its reservation is stored, and it is not pending any more.
abbrev second_push : PlanInput
second_push = record first_push {
  persisted_reservation = some (reservation_of store.fingerprint session event "e1");
  event_id = "e2";
}

plan-Coherent_example :
    PlansCoherently store.fingerprint session event
      (plan_terminal_event store.fingerprint first_push)
plan-Coherent_example = plan-Coherent store.fingerprint first_push session refl

stages : StagesNew (plan_terminal_event store.fingerprint first_push) tuple
unfolding plan_terminal_event plan_at plan_for plan_reserved plan_new is_live_duplicate
    assert_context_matches
stages = refl

accepts : Accepted event session
unfolding assert_context_matches
accepts = record { same_id = refl; same_provider = refl; context_matches = refl }

known : IsKnown store.fingerprint tuple second_push
unfolding reservation_of terminal_tuple
known = inr (reservation_of store.fingerprint session event "e1", refl, refl, inl refl)

plan-again_example :
    Repeats store.fingerprint tuple second_push (plan_terminal_event store.fingerprint second_push)
plan-again_example =
    plan-again store.fingerprint first_push second_push session session tuple refl refl stages refl
      accepts known
