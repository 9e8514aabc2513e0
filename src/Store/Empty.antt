-- ===== src/Store/Empty.antt =====
-- The state of a Bridge that has none: `emptyState`, apps/bridge/src/state-store/state-codec.ts.
use ariava.Prelude.{String, none, some, []}
use ariava.Store.State.{BridgeState, SessionsSnapshot, healthy}

abbrev pub empty_snapshot : SessionsSnapshot
empty_snapshot = record {
  last_allocated_revision = 0;
  last_accepted_revision = 0;
  last_accepted_digest = none;
  last_accepted_content_digest = none;
  last_accepted_recipient_set_version = none;
}

abbrev pub empty_state : String → BridgeState
empty_state runtime_reset_epoch = record {
  runtime_reset_epoch = runtime_reset_epoch;
  host = none;
  sessions = [];
  session_drivers = [];
  reconciled_drivers = [];
  recent_events = [];
  session_revisions = [];
  recipient_set_version = none;
  event_upload_completions = [];
  producer_event_reservations = [];
  producer_event_checkpoints = [];
  terminal_cancellations = [];
  pending_handles = [];
  command_executions = [];
  current_sessions_snapshot = empty_snapshot;
  runtime_health = some (record { status = healthy; drivers = []; relay_presence = none });
}
