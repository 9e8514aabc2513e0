-- ===== src/Store/State.antt =====
-- The persisted state of the Bridge: apps/bridge/src/types.ts, with the session and event types of
-- packages/protocol/src. A timestamp is a canonical ISO text, by its milliseconds. A map that may be
-- undefined is the empty one, as every reader takes it.
mod CommandState
pub use CommandState.*
use ariava.Prelude.{ℕ, zero, suc, String, Bool, ◌≡◌, refl, Option, List, Eq, eq_by_index}
use ariava.Prelude.Dict.{Dict}

pub data SessionStatus : Type 0 where
  idle working need_human : SessionStatus

abbrev pub status_index : SessionStatus → ℕ
status_index idle = 0
status_index working = 1
status_index need_human = 2

abbrev pub status_at : ℕ → SessionStatus
status_at zero = idle
status_at (suc zero) = working
status_at n = need_human

pub status_at-index : (s : SessionStatus) → status_at (status_index s) ≡ s
status_at-index idle = refl
status_at-index _ = refl

instance abbrev pub status_eq : Eq SessionStatus
status_eq = eq_by_index status_index status_at status_at-index

pub record CanonicalSession : Type 0 where
  pub session_id : String
  pub host_id : String
  pub provider : String
  pub project_name : String
  pub name_text : String
  pub opening_text : Option String
  pub latest_activity_text : Option String
  pub working_directory : Option String
  pub harness_provider : Option String
  pub status : SessionStatus
  pub updated_at : Timestamp
  pub last_event_id : Option String
  pub snoozed_until : Option Timestamp

-- The event's type, status and need-human context, which go together.
pub data EventKind : Type 0 where
  done : EventKind
  needs_human : (reason : String) → (error : Option String) → EventKind

pub record CanonicalEvent : Type 0 where
  pub event_id : String
  pub host_id : String
  pub session_id : String
  pub provider : String
  pub kind : EventKind
  pub agent_text : String
  pub human_text : Option String
  pub project_name : Option String
  pub working_directory : Option String
  pub harness_provider : Option String
  pub created_at : Timestamp

pub data HandleAction : Type 0 where
  pi_input bridge_recovery : HandleAction

pub record PendingHandle : Type 0 where
  pub host_id : String
  pub session_id : String
  pub handled_through_event_id : String
  pub handled_through_event_created_at : Option Timestamp
  pub handled_at : Timestamp
  pub action : HandleAction
  pub updated_at : Timestamp

pub record SessionsSnapshot : Type 0 where
  pub last_allocated_revision : ℕ
  pub last_accepted_revision : ℕ
  pub last_accepted_digest : Option String
  pub last_accepted_content_digest : Option String
  pub last_accepted_recipient_set_version : Option ℕ

pub record Reservation : Type 0 where
  pub event_id : String
  pub session_id : String
  pub fingerprint : String
  pub created_at : Timestamp

pub record Checkpoint : Type 0 where
  pub session_id : String
  pub producer_event_id : String
  pub producer_event_order : String
  pub event_id : String
  pub fingerprint : String
  pub created_at : Timestamp

pub record TerminalCancellation : Type 0 where
  pub session_id : String
  pub event_id : String
  pub fingerprint : String
  pub removes_session : Bool
  pub created_at : Timestamp

pub record UploadCompletion : Type 0 where
  pub version : ℕ
  pub event_id : String
  pub session_id : String
  pub revision : ℕ
  pub event_content_id : String
  pub session_content_id : String
  pub committed_at : Timestamp
  pub revision_committed : Bool
  pub inflight_removed : Bool
  pub source_removed : Bool

pub record DriverHealth : Type 0 where
  pub driver : String
  pub count : ℕ
  pub first_seen_at : Timestamp
  pub last_seen_at : Timestamp
  pub last_success_at : Option Timestamp
  pub next_retry_at : Timestamp

pub record PresenceHealth : Type 0 where
  pub count : ℕ
  pub first_seen_at : Timestamp
  pub last_seen_at : Timestamp
  pub last_success_at : Option Timestamp
  pub next_retry_at : Timestamp

pub data HealthStatus : Type 0 where
  healthy degraded : HealthStatus

pub record RuntimeHealth : Type 0 where
  pub status : HealthStatus
  pub drivers : List DriverHealth
  pub relay_presence : Option PresenceHealth

-- The Host projection; enumerated fields by their texts. The last three are not in its type, and
-- `sanitizePersistedHost` deletes them where an older file has them.
pub record HostProjection : Type 0 where
  pub host_id : String
  pub host_name : String
  pub platform : String
  pub bridge_version : String
  pub registered_at : Timestamp
  pub last_seen_at : Timestamp
  pub bridge_status : String
  pub status : Option String
  pub claim_code : Option String
  pub claim_code_expires_at : Option String
  pub owner_user_id : Option String

pub record BridgeState : Type 0 where
  pub runtime_reset_epoch : String
  pub host : Option HostProjection
  pub sessions : Dict CanonicalSession
  pub session_drivers : Dict String
  pub reconciled_drivers : Dict (Unit {0})
  pub recent_events : List CanonicalEvent
  pub session_revisions : Dict ℕ
  pub recipient_set_version : Option ℕ
  pub event_upload_completions : Dict UploadCompletion
  pub producer_event_reservations : Dict Reservation
  pub producer_event_checkpoints : Dict Checkpoint
  pub terminal_cancellations : Dict TerminalCancellation
  pub pending_handles : Dict PendingHandle
  pub command_executions : Dict CommandExecution
  pub current_sessions_snapshot : SessionsSnapshot
  pub runtime_health : Option RuntimeHealth

-- `StateTransition`: `unchanged` is the same object as the input, for which nothing is written.
pub data Next : Type 0 where
  unchanged : Next
  replaced : BridgeState → Next

pub record StateTransition {ℓ} (A : Type ℓ) : Type ℓ where
  pub state : Next
  pub result : A

-- The state after a transition.
abbrev pub after {ℓ} : {A : Type ℓ} → BridgeState → StateTransition A → BridgeState
after s t = elim (t.state) [ unchanged ↦ s | replaced s' ↦ s' ]

-- What the transitions throw, by the text of the source's message.
pub data StoreError : Type 0 where
  driver_requires_session handle_requires_event handle_time_mismatch handle_is_older : StoreError
  revision_must_advance reservation_conflict checkpoint_session_mismatch : StoreError
  recipient_set_not_committed recipient_set_rollback : StoreError
  not_claimed invalid_execution invalid_binding cannot_start_dispatch : StoreError
  cannot_become_unknown cannot_persist_result cannot_become_terminal : StoreError
  result_is_immutable invalid_outbox outbox_cannot_transition invalid_clock : StoreError
  invalid_timestamp : StoreError
