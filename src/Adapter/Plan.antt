-- ===== src/Adapter/Plan.antt =====
-- What to do with a terminal event that a producer pushes:
-- apps/bridge/src/agent-adapter/terminal-event-plan.ts. `fingerprint` is producerEventFingerprint,
-- a digest of the producer's part of an event.
pub mod Duplicates
use ariava.Prelude.{
  String, Bool, true, false, not, Option, none, some, ◌==◌, ◌!=◌, if◌then◌else◌, string_eq, Result,
  ok, throw,
}
use ariava.Store.State.{CanonicalSession, CanonicalEvent, Reservation}
use ariava.Adapter.{SessionFields, EventInput, PendingTerminal}
use ariava.Adapter.Codec.{assert_context_matches, event_status, event_of, input_of}

pub data TerminalPlan : Type 0 where
  return_live_duplicate : (promote_now : Bool) → TerminalPlan
  return_reservation_without_tuple : (event_id : String) → TerminalPlan
  stage_reserved_tuple : (tuple : PendingTerminal) → (promote_now : Bool) → TerminalPlan
  cancel_older_and_reserve :
      (tuple : PendingTerminal) → (reservation : Reservation) → (promote_now : Bool) → TerminalPlan
  reserve_new_tuple :
      (tuple : PendingTerminal) → (reservation : Reservation) → (promote_now : Bool) → TerminalPlan
  reject : (error : String) → TerminalPlan

pub record PlanInput : Type 0 where
  pub session : Option SessionFields
  pub live_pending : Option PendingTerminal
  pub persisted_reservation : Option Reservation
  pub persisted_tuple : Option PendingTerminal
  pub has_pending_command_work : Bool
  pub input : EventInput
  pub event_id : String

unfoldable pub to_canonical_session_state : SessionFields → CanonicalSession
to_canonical_session_state session = record {
  session_id = session.session_id;
  host_id = session.host_id;
  provider = session.provider;
  project_name = session.project_name;
  name_text = session.name_text;
  opening_text = session.opening_text;
  latest_activity_text = session.latest_activity_text;
  working_directory = some session.cwd;
  harness_provider = session.harness_provider;
  status = session.status;
  updated_at = session.semantic_updated_at;
  last_event_id = session.last_event_id;
  snoozed_until = none;
}

-- The tuple of a new event: the event, and the session as the event leaves it.
unfoldable pub terminal_tuple : SessionFields → EventInput → String → PendingTerminal
unfolding to_canonical_session_state
terminal_tuple session input event_id = record {
  event = event_of input event_id session.host_id;
  session = to_canonical_session_state (record session {
    status = event_status input.kind;
    latest_activity_text = some input.agent_text;
    last_event_id = some event_id;
    semantic_updated_at = input.created_at;
  });
}

module _ (fingerprint : EventInput → String) where
  unfoldable pub reservation_of : SessionFields → EventInput → String → Reservation
  reservation_of session input event_id = record {
    event_id = event_id;
    session_id = session.session_id;
    fingerprint = fingerprint input;
    created_at = input.created_at;
  }

  -- `livePending && producerEventFingerprint(livePending.event) === fingerprint`
  unfoldable pub is_live_duplicate : Option PendingTerminal → EventInput → Bool
  is_live_duplicate none input = false
  is_live_duplicate (some live) input = fingerprint (input_of live.event) == fingerprint input

  -- The plan for an event that is neither pending nor reserved.
  unfoldable pub plan_new :
      Option PendingTerminal → SessionFields → EventInput → String → Bool → TerminalPlan
  plan_new none session input event_id promote_now =
      reserve_new_tuple (terminal_tuple session input event_id)
        (reservation_of session input event_id) promote_now
  plan_new (some live) session input event_id promote_now =
      cancel_older_and_reserve (terminal_tuple session input event_id)
        (reservation_of session input event_id) promote_now

  -- The plan for an event that is not the pending one.
  unfoldable pub plan_reserved :
      PlanInput → SessionFields → Option Reservation → Option PendingTerminal → TerminalPlan
  plan_reserved snapshot session none tuple =
      plan_new snapshot.live_pending session snapshot.input snapshot.event_id
        (not snapshot.has_pending_command_work)
  plan_reserved snapshot session (some reservation) none =
      return_reservation_without_tuple reservation.event_id
  plan_reserved snapshot session (some reservation) (some tuple) =
      stage_reserved_tuple tuple (not snapshot.has_pending_command_work)

  abbrev rejected : Result String (Unit {0}) → TerminalPlan → TerminalPlan
  rejected (throw error) plan = reject error
  rejected (ok done) plan = plan

  unfoldable pub plan_for : PlanInput → SessionFields → TerminalPlan
  plan_for snapshot session =
      if snapshot.input.session_id != session.session_id
      then reject "canonical Event sessionId does not match the request path"
      else if snapshot.input.provider != session.provider
      then reject "canonical Event provider does not match the registered Session"
      else rejected (assert_context_matches snapshot.input session) (
          if is_live_duplicate snapshot.live_pending snapshot.input
          then return_live_duplicate (not snapshot.has_pending_command_work)
          else plan_reserved snapshot session snapshot.persisted_reservation
              snapshot.persisted_tuple)

  unfoldable pub plan_at : PlanInput → Option SessionFields → TerminalPlan
  plan_at snapshot none = reject "Session is not registered"
  plan_at snapshot (some session) = plan_for snapshot session

  unfoldable pub plan_terminal_event : PlanInput → TerminalPlan
  plan_terminal_event snapshot = plan_at snapshot snapshot.session
