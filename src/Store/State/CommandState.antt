-- ===== src/Store/State/CommandState.antt =====
-- The parts of a stored command: apps/bridge/src/types.ts, with the command types of
-- packages/protocol/src/commands.ts.
use ariava.Prelude.{ℕ, String, Bool, Option}

abbrev pub Timestamp : Type 0
Timestamp = ℕ

pub data CommandType : Type 0 where
  reply interrupt : CommandType

-- The encrypted payload: the two key ids of its key wrap, and the text of the rest.
pub record Payload : Type 0 where
  pub sender_encryption_key_id : String
  pub recipient_encryption_key_id : String
  pub content : String

pub record EncryptedCommand : Type 0 where
  pub command_id : String
  pub host_id : String
  pub session_id : String
  pub kind : CommandType
  pub payload : Payload
  pub target_alert_event_id : Option String
  pub issued_at : Timestamp
  pub expires_at : Timestamp
  pub nonce : String
  pub watch_device_id : String
  pub link_id : String
  pub link_generation : ℕ
  pub epoch : ℕ

pub data ResultStatus : Type 0 where
  executed expired rejected failed : ResultStatus

pub record CommandResult : Type 0 where
  pub command_id : String
  pub host_id : String
  pub session_id : String
  pub accepted : Bool
  pub status : ResultStatus
  pub updated_at : Timestamp

pub record PinReference : Type 0 where
  pub link_id : String
  pub link_generation : ℕ
  pub epoch : ℕ
  pub transcript_digest : String
  pub host_encryption_key_id : String
  pub watch_encryption_key_id : String

pub data OutboxState : Type 0 where
  pending acknowledged undeliverable : OutboxState

pub record ReceiptOutbox : Type 0 where
  pub state : OutboxState
  pub canonical_body : String
  pub receipt_digest : String

pub data ExecutionState : Type 0 where
  claimed dispatch_started outcome_unknown terminal_receipt_blocked terminal : ExecutionState

pub record CommandExecution : Type 0 where
  pub original_encrypted_command : EncryptedCommand
  pub command_digest : String
  pub pin_reference : PinReference
  pub watch_device_id : String
  pub nonce : String
  pub expires_at : Timestamp
  pub state : ExecutionState
  pub claimed_at : Timestamp
  pub dispatch_started_at : Option Timestamp
  pub terminal_result : Option CommandResult
  pub receipt_outbox : Option ReceiptOutbox
