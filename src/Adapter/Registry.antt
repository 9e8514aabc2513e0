-- ===== src/Adapter/Registry.antt =====
-- The registry of the agent adapter: apps/bridge/src/agent-adapter/registry.ts. Its maps are fields
-- of one record, and so is the state store that it writes to, whose operations are an interface. A
-- method that throws keeps what it has changed before. Promises, callbacks and timers are in the list
-- of effects, in order: what a poll or a wait was answered, which mutation was announced, which
-- retry was scheduled or cancelled, and which event was committed. A poll or wait is known by a number.
pub mod Action
pub mod Terminal
pub mod Queue
pub mod Owner
pub mod Register
pub mod Push
pub mod Listing
pub mod Calls
pub mod Slots
pub mod Pushes
pub mod Waiting
pub mod Outcomes
pub mod Once
pub mod Contention
use ariava.Prelude.{ℕ, String, Bool, Option, none, some, List, Result}
use ariava.Prelude.Dict.{Dict}
use ariava.Store.State.{
  Timestamp, CommandResult, CanonicalSession, CanonicalEvent, Reservation, Checkpoint,
  PendingHandle,
}
use ariava.Adapter.{RegisteredSession, EventInput, PendingTerminal, MutationReason}
use ariava.Adapter.Registration.{Cancellation}

-- The decrypted command; what the registry does not read is one text.
pub record CommandEnvelope : Type 0 where
  pub command_id : String
  pub host_id : String
  pub session_id : String
  pub content : String

pub record Binding : Type 0 where
  pub host_id : String
  pub session_id : String
  pub provider : String

-- The argument of cancelTerminalEvent.
pub record CancelRequest : Type 0 where
  pub event_id : String
  pub session_id : String
  pub fingerprint : String
  pub remove_session : Bool
  pub next_driver_name : Option String
  pub created_at : Timestamp
  pub replacement_session : Option CanonicalSession

-- What a write of the state store leaves: its next state, and whether it returned.
pub record Wrote (S : Type 0) : Type 0 where
  pub next : S
  pub result : Result String (Unit {0})

-- The operations of the state store that the registry calls, with the fingerprint of events.
pub record StateStore (S : Type 0) : Type 0 where
  pub fingerprint : EventInput → String
  pub get_session : S → String → Option CanonicalSession
  pub get_driver_name : S → String → Option String
  pub set_session_driver : S → String → String → CanonicalSession → Wrote S
  pub remove_session : S → String → Option String → Wrote S
  pub get_cancellation : S → String → Option Cancellation
  pub cancel_terminal_event : S → CancelRequest → Wrote S
  pub reserve_tuple : S → PendingTerminal → String → Wrote S
  pub get_tuple : S → String → String → Option PendingTerminal
  pub reserve_event : S → Reservation → Wrote S
  pub accept_source : S → Reservation → Checkpoint → Wrote S
  pub get_reservation : S → String → String → Option Reservation
  pub list_reservations : S → String → List Reservation
  pub get_recent_event : S → String → Option CanonicalEvent
  pub get_checkpoint : S → String → Option Checkpoint
  pub queue_pending_event : S → PendingTerminal → String → Wrote S
  pub queue_pending_handle : S → PendingHandle → Wrote S
  pub mark_outcome_unknown : S → String → Wrote S

pub data Effect : Type 0 where
  mutated : MutationReason → Effect
  polled : (waiter : ℕ) → Option CommandEnvelope → Effect
  answered : (waiter : ℕ) → Option CommandResult → Effect
  scheduled : (session_id : String) → (delay_ms : ℕ) → Effect
  cancelled : (session_id : String) → Effect
  committed : (event_id : String) → Effect

pub record Registry (S : Type 0) : Type 0 where
  pub host_id : String
  pub store : S
  pub sessions : Dict RegisteredSession
  pub command_queues : Dict (List CommandEnvelope)
  pub command_waiters : Dict (List ℕ)
  pub results : Dict CommandResult
  pub result_waiters : Dict (List ℕ)
  pub command_sessions : Dict Binding
  pub in_flight_commands : Dict (List String)
  pub delayed_terminal_events : Dict PendingTerminal
  pub terminal_retry_attempts : Dict ℕ
  pub terminal_retry_timers : Dict ℕ
  pub orphaned_command_ids : List String
  pub disposed : Bool
  pub effects : List Effect
