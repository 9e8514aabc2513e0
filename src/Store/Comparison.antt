-- ===== src/Store/Comparison.antt =====
-- Comparison of a stored command's parts: the enumerations' `===`, and the comparisons of
-- `JSON.stringify` texts and `sameCommandClaim` in apps/bridge/src/state-store/command-transitions.ts.
use ariava.Prelude.{
  ℕ, zero, suc, ◌≡◌, refl, Bool, true, false, ◌&&◌, Option, none, some, ◌==◌, Eq, eq_by_index,
  arith, string_eq, nat_eq, bool_eq, option_eq, option_beq_iff,
}
use ariava.Store.State.{
  CommandType, reply, interrupt, Payload, EncryptedCommand, ResultStatus, executed, expired,
  rejected, failed, CommandResult, PinReference, OutboxState, pending, acknowledged, undeliverable,
  ExecutionState, claimed, dispatch_started, outcome_unknown, terminal_receipt_blocked, terminal,
  CommandExecution,
}

abbrev pub command_type_index : CommandType → ℕ
command_type_index reply = 0
command_type_index interrupt = 1

abbrev pub command_type_at : ℕ → CommandType
command_type_at zero = reply
command_type_at n = interrupt

pub command_type_at-index : (c : CommandType) → command_type_at (command_type_index c) ≡ c
command_type_at-index reply = refl
command_type_at-index interrupt = refl

instance abbrev pub command_type_eq : Eq CommandType
command_type_eq = eq_by_index command_type_index command_type_at command_type_at-index

abbrev pub result_status_index : ResultStatus → ℕ
result_status_index executed = 0
result_status_index expired = 1
result_status_index rejected = 2
result_status_index failed = 3

abbrev pub result_status_at : ℕ → ResultStatus
result_status_at zero = executed
result_status_at (suc zero) = expired
result_status_at (suc (suc zero)) = rejected
result_status_at n = failed

pub result_status_at-index : (s : ResultStatus) → result_status_at (result_status_index s) ≡ s
result_status_at-index executed = refl
result_status_at-index _ = refl

instance abbrev pub result_status_eq : Eq ResultStatus
result_status_eq = eq_by_index result_status_index result_status_at result_status_at-index

abbrev pub execution_state_index : ExecutionState → ℕ
execution_state_index claimed = 0
execution_state_index dispatch_started = 1
execution_state_index outcome_unknown = 2
execution_state_index terminal_receipt_blocked = 3
execution_state_index terminal = 4

abbrev pub execution_state_at : ℕ → ExecutionState
execution_state_at zero = claimed
execution_state_at (suc zero) = dispatch_started
execution_state_at (suc (suc zero)) = outcome_unknown
execution_state_at (suc (suc (suc zero))) = terminal_receipt_blocked
execution_state_at n = terminal

pub execution_state_at-index :
    (s : ExecutionState) → execution_state_at (execution_state_index s) ≡ s
execution_state_at-index claimed = refl
execution_state_at-index _ = refl

instance abbrev pub execution_state_eq : Eq ExecutionState
execution_state_eq = eq_by_index execution_state_index execution_state_at execution_state_at-index

abbrev pub outbox_state_index : OutboxState → ℕ
outbox_state_index pending = 0
outbox_state_index acknowledged = 1
outbox_state_index undeliverable = 2

abbrev pub outbox_state_at : ℕ → OutboxState
outbox_state_at zero = pending
outbox_state_at (suc zero) = acknowledged
outbox_state_at n = undeliverable

pub outbox_state_at-index : (s : OutboxState) → outbox_state_at (outbox_state_index s) ≡ s
outbox_state_at-index pending = refl
outbox_state_at-index _ = refl

instance abbrev pub outbox_state_eq : Eq OutboxState
outbox_state_eq = eq_by_index outbox_state_index outbox_state_at outbox_state_at-index

-- Values whose `JSON.stringify` texts are compared, whose fields stand in one order.
pub same_payload : Payload → Payload → Bool
same_payload a b =
    a.sender_encryption_key_id == b.sender_encryption_key_id
    && a.recipient_encryption_key_id == b.recipient_encryption_key_id
    && a.content == b.content

pub same_command : EncryptedCommand → EncryptedCommand → Bool
unfolding same_payload
same_command a b =
    a.command_id == b.command_id
    && a.host_id == b.host_id
    && a.session_id == b.session_id
    && a.kind == b.kind
    && same_payload a.payload b.payload
    && a.target_alert_event_id == b.target_alert_event_id
    && a.issued_at == b.issued_at
    && a.expires_at == b.expires_at
    && a.nonce == b.nonce
    && a.watch_device_id == b.watch_device_id
    && a.link_id == b.link_id
    && a.link_generation == b.link_generation
    && a.epoch == b.epoch

pub same_pin : PinReference → PinReference → Bool
same_pin a b =
    a.link_id == b.link_id
    && a.link_generation == b.link_generation
    && a.epoch == b.epoch
    && a.transcript_digest == b.transcript_digest
    && a.host_encryption_key_id == b.host_encryption_key_id
    && a.watch_encryption_key_id == b.watch_encryption_key_id

pub same_present_result : CommandResult → CommandResult → Bool
same_present_result a b =
    a.command_id == b.command_id
    && a.host_id == b.host_id
    && a.session_id == b.session_id
    && a.accepted == b.accepted
    && a.status == b.status
    && a.updated_at == b.updated_at

pub same_result : Option CommandResult → CommandResult → Bool
unfolding same_present_result
same_result none b = false
same_result (some a) b = same_present_result a b

pub same_command_claim : CommandExecution → CommandExecution → Bool
unfolding same_command same_pin
same_command_claim left right =
    left.command_digest == right.command_digest
    && same_command left.original_encrypted_command right.original_encrypted_command
    && same_pin left.pin_reference right.pin_reference

pub same_result-eq : (a b : CommandResult) → same_result (some a) b ≡ true → a ≡ b
unfolding same_result
same_result-eq a b h = ground (
  arith,
  bool_eq.same_as_iff a.accepted b.accepted,
  result_status_eq.same_as_iff a.status b.status,
  string_eq.same_as_iff a.command_id b.command_id,
  string_eq.same_as_iff a.host_id b.host_id,
  string_eq.same_as_iff a.session_id b.session_id,
)

same_command_refl : (a : EncryptedCommand) → same_command a a ≡ true
unfolding same_command
same_command_refl a = ground (
  arith,
  string_eq.same_as_iff a.command_id a.command_id,
  string_eq.same_as_iff a.host_id a.host_id,
  string_eq.same_as_iff a.session_id a.session_id,
  string_eq.same_as_iff a.payload.sender_encryption_key_id a.payload.sender_encryption_key_id,
  string_eq.same_as_iff a.payload.recipient_encryption_key_id a.payload.recipient_encryption_key_id,
  string_eq.same_as_iff a.payload.content a.payload.content,
  option_beq_iff a.target_alert_event_id a.target_alert_event_id,
  string_eq.same_as_iff a.nonce a.nonce,
  string_eq.same_as_iff a.watch_device_id a.watch_device_id,
  string_eq.same_as_iff a.link_id a.link_id,
)

same_pin_refl : (a : PinReference) → same_pin a a ≡ true
unfolding same_pin
same_pin_refl a = ground (
  arith,
  string_eq.same_as_iff a.link_id a.link_id,
  string_eq.same_as_iff a.transcript_digest a.transcript_digest,
  string_eq.same_as_iff a.host_encryption_key_id a.host_encryption_key_id,
  string_eq.same_as_iff a.watch_encryption_key_id a.watch_encryption_key_id,
)

pub same_command_claim-true :
    (a b : CommandExecution)
    → a.command_digest ≡ b.command_digest
    → a.original_encrypted_command ≡ b.original_encrypted_command
    → a.pin_reference ≡ b.pin_reference
    → same_command_claim a b ≡ true
unfolding same_command_claim
same_command_claim-true a b digest command pin =
    rw (digest, command, pin)
      (ground (
        arith,
        string_eq.same_as_iff b.command_digest b.command_digest,
        same_command_refl b.original_encrypted_command,
        same_pin_refl b.pin_reference,
      ))
