-- ===== src/Store/Execution.antt =====
-- The checks of a command execution: `assertCommandExecution` and what it calls in
-- apps/bridge/src/state-store/state-codec.ts.
pub mod Orphans
use ariava.Prelude.{
  ℕ, zero, suc, String, ◌≡◌, refl, Bool, true, false, not, ◌&&◌, ◌||◌, Option, none, some, ◌==◌,
  ◌!=◌, ltb, Eq, eq_by_index, Result, ok, throw, ◌>>=◌, ◌>>◌, throw_if, require, string_eq, nat_eq,
  bool_eq, option_eq,
}
use ariava.Prelude.Codes.{is_verifier, is_prefixed_key}
use ariava.Store.Comparison.{command_type_eq}
use ariava.Store.State.{
  Timestamp, CommandType, reply, interrupt, Payload, EncryptedCommand, ResultStatus, executed,
  expired, rejected, failed, CommandResult, PinReference, OutboxState, pending, acknowledged,
  undeliverable, ReceiptOutbox, ExecutionState, claimed, dispatch_started, outcome_unknown,
  terminal_receipt_blocked, terminal, CommandExecution, StoreError, invalid_execution,
  invalid_binding, invalid_outbox,
}

-- The receipt's fields that the checks read, and the text of the rest.
pub record Receipt : Type 0 where
  pub host_id : String
  pub watch_device_id : String
  pub session_id : String
  pub command_id : String
  pub command_type : CommandType
  pub command_digest : String
  pub completed_at : Timestamp
  pub link_id : String
  pub link_generation : ℕ
  pub epoch : ℕ
  pub sender_encryption_key_id : String
  pub recipient_encryption_key_id : String
  pub content : String

pub record OutboxInput : Type 0 where
  pub canonical_body : String
  pub receipt_digest : String
  pub receipt : Receipt

-- What the checks call: the protocol's validators, `JSON.parse` and `JSON.stringify` of a receipt,
-- and the SHA-256 digests of the binding bytes.
pub record Checks : Type 0 where
  pub is_command : EncryptedCommand → Bool
  pub is_result : CommandResult → Bool
  pub is_receipt : Receipt → Bool
  pub command_digest : EncryptedCommand → String
  pub receipt_digest : Receipt → String
  pub parse_receipt : String → Option Receipt
  pub receipt_text : Receipt → String

is_pin_reference : PinReference → Bool
unfolding is_verifier is_prefixed_key
is_pin_reference p =
    p.link_id != ""
    && ltb 0 p.link_generation
    && ltb 0 p.epoch
    && is_verifier p.transcript_digest
    && is_prefixed_key "ekey_" p.host_encryption_key_id
    && is_prefixed_key "ekey_" p.watch_encryption_key_id

module _ (checks : Checks) where
  abbrev is_canonical_receipt : Receipt → String → String → Bool
  is_canonical_receipt receipt body digest =
      checks.is_receipt receipt
      && checks.receipt_text receipt == body
      && checks.receipt_digest receipt == digest

  -- The second condition of `assertReceiptOutboxForExecution`, negated.
  unfoldable pub receipt_matches : CommandExecution → CommandResult → Receipt → Bool
  receipt_matches e result receipt =
      let command = e.original_encrypted_command in
      result.command_id == command.command_id
      && result.host_id == command.host_id
      && result.session_id == command.session_id
      && receipt.host_id == command.host_id
      && receipt.watch_device_id == command.watch_device_id
      && receipt.session_id == command.session_id
      && receipt.command_id == command.command_id
      && receipt.command_type == command.kind
      && receipt.command_digest == e.command_digest
      && receipt.completed_at == result.updated_at
      && receipt.link_id == e.pin_reference.link_id
      && receipt.link_generation == e.pin_reference.link_generation
      && receipt.epoch == e.pin_reference.epoch
      && receipt.sender_encryption_key_id == e.pin_reference.host_encryption_key_id
      && receipt.recipient_encryption_key_id == e.pin_reference.watch_encryption_key_id

  pub assert_receipt_outbox :
      CommandExecution → CommandResult → OutboxInput → Result StoreError (Unit {0})
  unfolding receipt_matches
  assert_receipt_outbox e result outbox = do
    require
        (checks.is_result result
          && is_canonical_receipt outbox.receipt outbox.canonical_body outbox.receipt_digest)
        invalid_outbox
    require (receipt_matches e result outbox.receipt) invalid_outbox

  abbrev is_parsed_outbox : Option Receipt → ReceiptOutbox → Bool
  is_parsed_outbox none o = false
  is_parsed_outbox (some receipt) o = is_canonical_receipt receipt o.canonical_body o.receipt_digest

  is_receipt_outbox : Option ReceiptOutbox → Bool
  unfolding is_verifier
  is_receipt_outbox none = true
  is_receipt_outbox (some o) =
      o.canonical_body != ""
      && is_verifier o.receipt_digest
      && is_parsed_outbox (checks.parse_receipt o.canonical_body) o

  is_execution_shape : CommandExecution → Bool
  unfolding is_verifier is_pin_reference
  is_execution_shape e =
      let command = e.original_encrypted_command in
      checks.is_command command
      && is_verifier e.command_digest
      && is_pin_reference e.pin_reference
      && e.watch_device_id == command.watch_device_id
      && e.nonce == command.nonce
      && e.expires_at == command.expires_at

  is_execution_binding : CommandExecution → Bool
  is_execution_binding e =
      let command = e.original_encrypted_command in
      e.command_digest == checks.command_digest command
      && e.pin_reference.link_id == command.link_id
      && e.pin_reference.link_generation == command.link_generation
      && e.pin_reference.epoch == command.epoch
      && e.pin_reference.host_encryption_key_id == command.payload.recipient_encryption_key_id
      && e.pin_reference.watch_encryption_key_id == command.payload.sender_encryption_key_id

  is_bound_result : EncryptedCommand → Option CommandResult → Bool
  is_bound_result command none = true
  is_bound_result command (some result) =
      checks.is_result result
      && result.command_id == command.command_id
      && result.host_id == command.host_id
      && result.session_id == command.session_id

  -- `assertPersistedReceiptMatchesExecution`
  assert_persisted_receipt :
      CommandExecution
      → CommandResult
      → ReceiptOutbox
      → Option Receipt
      → Result StoreError (Unit {0})
  assert_persisted_receipt e result o none = throw invalid_outbox
  assert_persisted_receipt e result o (some receipt) = assert_receipt_outbox e result (record {
    canonical_body = o.canonical_body;
    receipt_digest = o.receipt_digest;
    receipt = receipt;
  })

  -- The `switch` on the state at the end of `assertCommandExecution`.
  assert_state_shape :
      CommandExecution
      → ExecutionState
      → Option Timestamp
      → Option CommandResult
      → Option ReceiptOutbox
      → Result StoreError (Unit {0})
  unfolding assert_persisted_receipt
  assert_state_shape e claimed none none none = ok tt
  assert_state_shape e dispatch_started (some t) none none = ok tt
  assert_state_shape e outcome_unknown t none none = ok tt
  assert_state_shape e terminal_receipt_blocked t (some r) none = ok tt
  assert_state_shape e terminal t (some r) (some o) =
      assert_persisted_receipt e r o (checks.parse_receipt o.canonical_body)
  assert_state_shape e _ _ _ _ = throw invalid_execution

  unfoldable pub assert_command_execution : CommandExecution → Result StoreError (Unit {0})
  unfolding is_execution_shape is_execution_binding is_bound_result is_receipt_outbox
      assert_state_shape
  assert_command_execution e = do
    require (is_execution_shape e) invalid_execution
    require (is_execution_binding e) invalid_binding
    require (is_bound_result e.original_encrypted_command e.terminal_result) invalid_binding
    require (is_receipt_outbox e.receipt_outbox) invalid_outbox
    assert_state_shape e e.state e.dispatch_started_at e.terminal_result e.receipt_outbox
