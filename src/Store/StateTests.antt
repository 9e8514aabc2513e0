-- ===== src/Store/StateTests.antt =====
-- The other transitions on a concrete state: apps/bridge/src/state-store.
use Prim.Native.Nat.{Ordering}
use ariava.Prelude.{
  String, ◌≡◌, refl, inr, ◌<◌, none, some, [], ◌∷◌, Result, ok, Bool, true, false, find, arith,
  string_eq, option_eq,
}
use ariava.Prelude.Dict.{Dict, lookup, insert}
use ariava.Store.State.{
  CanonicalEvent, done, PendingHandle, pi_input, Reservation, Checkpoint, BridgeState,
  StateTransition, unchanged, replaced, StoreError, after,
}
use ariava.Store.Commit.{Shell, failed_after, Ends, commit_state, commit_state-Ends}
use ariava.Store.Empty.{empty_state}
use ariava.Store.Events.{
  reserve_producer_event, reserve_producer_event_with_checkpoint, with_reservation,
}
use ariava.Store.Events.Reservations.{reserve-again, checkpoint-agrees}
use ariava.Store.Handles.{has_id, retain_recent_events}
use ariava.Store.Handles.References.{HandleReferences, queues, attempt, attempt-HandleReferences}
use ariava.Store.Handles.Retained.{retain-find}
use ariava.Store.Health.Status.{
  IsConsistent, driver_fails, driver_succeeds, report_all, report_all-IsConsistent,
}
use ariava.Store.Publication.{
  PublicationParameters, PublicationRequest, create_publication, is_published_well,
}
use ariava.Store.Publication.Cursors.{
  creates, accepts, notes, sets_version, attempt as publish, attempt_all as publish_all,
  created-increasing, attempt_all-published,
}

abbrev bridge : BridgeState
bridge = empty_state "epoch"

abbrev version_one : BridgeState
version_one = record bridge { recipient_set_version = some 1 }

abbrev parameters : PublicationParameters
parameters = record {
  host_id = "host_1";
  content_digest = "digest";
  recipient_set_version = 1;
  observed_at = 1000;
  minimum_revision = 0;
}

abbrev first_request : PublicationRequest
first_request = record {
  host_id = "host_1";
  revision = 1;
  observed_at = 1000;
  recipient_set_version = 1;
}

abbrev second_request : PublicationRequest
second_request = record first_request { revision = 2 }

first_created :
    (create_publication version_one parameters).result
    ≡ some (record { request = first_request; content_digest = "digest" })
unfolding create_publication
first_created = refl

second_created :
    (create_publication
      (publish_all (publish version_one (creates parameters)) [])
      parameters).result
    ≡ some (record { request = second_request; content_digest = "digest" })
unfolding create_publication
second_created = refl

created-increasing_example : 1 < 2
created-increasing_example =
    created-increasing version_one parameters parameters []
      (record { request = first_request; content_digest = "digest" })
      (record { request = second_request; content_digest = "digest" }) first_created second_created

attempt_all-published_example :
    is_published_well (
      publish_all version_one (
        creates parameters
        ∷ accepts first_request "request" "digest"
        ∷ notes 7
        ∷ sets_version 2
        ∷ []))
    ≡ true
unfolding is_published_well
attempt_all-published_example =
    attempt_all-published version_one
      (creates parameters
        ∷ accepts first_request "request" "digest"
        ∷ notes 7
        ∷ sets_version 2
        ∷ [])
      (tt, (omega arith, (tt, (tt, tt)))) refl

-- Ids by their length; any order will do.
abbrev never_above : String → String → Bool
never_above a b = false

abbrev all_equal : String → String → Ordering
all_equal a b = Ordering.eq

report_all-IsConsistent_example : IsConsistent (
    report_all never_above bridge
      (driver_fails "pi" 1000 2000 ∷ driver_fails "codex" 1100 2100 ∷ driver_succeeds "pi" ∷ []))
report_all-IsConsistent_example =
    report_all-IsConsistent never_above bridge
      (driver_fails "pi" 1000 2000 ∷ driver_fails "codex" 1100 2100 ∷ driver_succeeds "pi" ∷ [])
      refl

abbrev first_event : CanonicalEvent
first_event = record {
  event_id = "e1";
  host_id = "host_1";
  session_id = "s1";
  provider = "pi";
  kind = done;
  agent_text = "finished";
  human_text = none;
  project_name = none;
  working_directory = none;
  harness_provider = none;
  created_at = 1000;
}

abbrev first_handle : PendingHandle
first_handle = record {
  host_id = "host_1";
  session_id = "s1";
  handled_through_event_id = "e1";
  handled_through_event_created_at = none;
  handled_at = 1500;
  action = pi_input;
  updated_at = 1500;
}

abbrev one_handle : Dict PendingHandle
one_handle = ("host_1:s1", first_handle) ∷ []

retain-find_example :
    find (has_id "e1") (retain_recent_events (first_event ∷ []) one_handle)
    ≡ find (has_id "e1") (first_event ∷ [])
retain-find_example = retain-find (first_event ∷ []) one_handle "e1" refl

abbrev with_event : BridgeState
with_event = record bridge { recent_events = first_event ∷ [] }

with_event-HandleReferences : HandleReferences with_event
unfolding lookup
with_event-HandleReferences k h has = cc

attempt-HandleReferences_example :
    HandleReferences (attempt all_equal with_event (queues first_handle))
attempt-HandleReferences_example =
    attempt-HandleReferences all_equal with_event (queues first_handle) tt
      with_event-HandleReferences

abbrev first_reservation : Reservation
first_reservation = record {
  event_id = "e1";
  session_id = "s1";
  fingerprint = "f1";
  created_at = 1000;
}

abbrev first_checkpoint : Checkpoint
first_checkpoint = record {
  session_id = "s1";
  producer_event_id = "p1";
  producer_event_order = "1";
  event_id = "e1";
  fingerprint = "f1";
  created_at = 1000;
}

abbrev reserved : StateTransition (Unit {0})
reserved = record {
  state =
      replaced
        (record bridge { producer_event_reservations = with_reservation bridge first_reservation });
  result = tt;
}

reserved_first : reserve_producer_event bridge first_reservation ≡ ok reserved
unfolding reserve_producer_event lookup
reserved_first = refl

reserve-again_example :
    reserve_producer_event (after bridge reserved) first_reservation
    ≡ ok (record { state = unchanged; result = tt })
reserve-again_example = reserve-again bridge first_reservation reserved reserved_first

abbrev with_checkpoint : StateTransition (Unit {0})
with_checkpoint = record {
  state = replaced (record bridge {
    producer_event_reservations = with_reservation bridge first_reservation;
    producer_event_checkpoints = ("s1", first_checkpoint) ∷ [];
  });
  result = tt;
}

reserved_with_checkpoint :
    reserve_producer_event_with_checkpoint bridge first_reservation first_checkpoint
    ≡ ok with_checkpoint
unfolding reserve_producer_event_with_checkpoint lookup insert
reserved_with_checkpoint = refl

checkpoint-agrees_example :
    (first_checkpoint.session_id ≡ first_reservation.session_id)
    × (lookup (after bridge with_checkpoint).producer_event_checkpoints "s1"
        ≡ some first_checkpoint)
    × ((u : StateTransition (Unit {0})) × (reserve_producer_event bridge first_reservation ≡ ok u)
        × ((after bridge with_checkpoint).producer_event_reservations
            ≡ (after bridge u).producer_event_reservations))
checkpoint-agrees_example =
    checkpoint-agrees bridge first_reservation first_checkpoint with_checkpoint
      reserved_with_checkpoint

abbrev on_disk : Shell
on_disk = record { memory = bridge; has_path = true; disk = some bridge }

abbrev reserve_first : BridgeState → Result StoreError (StateTransition (Unit {0}))
reserve_first s = reserve_producer_event s first_reservation

commit_state-Ends_example :
    Ends on_disk (reserve_first bridge) (commit_state true failed_after on_disk reserve_first)
commit_state-Ends_example = commit_state-Ends true failed_after on_disk reserve_first (inr refl)
