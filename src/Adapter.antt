-- ===== src/Adapter.antt =====
-- The agent adapter: the sessions that drivers register with the Bridge over its local listener,
-- apps/bridge/src/agent-adapter/registry-types.ts.
pub mod Codec
pub mod Registration
pub mod Plan
pub mod Registry
mod Tests
use ariava.Prelude.{ℕ, String, Option, List, [], ◌∷◌}
use ariava.Store.State.{Timestamp, SessionStatus, EventKind, CanonicalEvent, CanonicalSession}

-- `Omit<RegisteredSession, 'driverInstanceId' | 'ownerLease' | 'lastOwnerLeaseMonotonic'>`
pub record SessionFields : Type 0 where
  pub session_id : String
  pub provider : String
  pub project_name : String
  pub cwd : String
  pub name_text : String
  pub opening_text : Option String
  pub latest_activity_text : Option String
  pub harness_provider : Option String
  pub pid : Option ℕ
  pub host_id : String
  pub registered_at : Timestamp
  pub last_heartbeat_at : Timestamp
  pub status : SessionStatus
  pub semantic_updated_at : Timestamp
  pub last_event_id : Option String

-- The session with its owner: the lease, and the monotonic clock at its last renewal.
pub record RegisteredSession : Type 0 where
  pub fields : SessionFields
  pub driver_instance_id : String
  pub owner_lease : String
  pub last_owner_lease_monotonic : ℕ

pub record RegisterInput : Type 0 where
  pub session_id : String
  pub provider : String
  pub project_name : String
  pub cwd : String
  pub name_text : String
  pub opening_text : Option String
  pub latest_activity_text : Option String
  pub harness_provider : Option String
  pub pid : Option ℕ
  pub status : Option SessionStatus
  pub driver_instance_id : String

-- A canonical event without the id and the Host, which the Bridge adds.
pub record EventInput : Type 0 where
  pub session_id : String
  pub provider : String
  pub kind : EventKind
  pub agent_text : String
  pub human_text : Option String
  pub project_name : Option String
  pub working_directory : Option String
  pub harness_provider : Option String
  pub created_at : Timestamp

pub record PendingTerminal : Type 0 where
  pub event : CanonicalEvent
  pub session : CanonicalSession

abbrev pub session_ttl_ms : ℕ
session_ttl_ms = 45000

abbrev pub owner_lease_ttl_ms : ℕ
owner_lease_ttl_ms = 6000

abbrev pub terminal_retry_delays_ms : List ℕ
terminal_retry_delays_ms = 100 ∷ 500 ∷ 2000 ∷ 5000 ∷ []

pub data MutationReason : Type 0 where
  register semantic handle unregister ttl : MutationReason
