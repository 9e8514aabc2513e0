-- ===== src/Store/Commands.antt =====
-- The life of a command: apps/bridge/src/state-store/command-transitions.ts, the transitions of
-- `commandExecutions` up to the receipt.
pub mod Lifecycle
use ariava.Prelude.{
  String, ◌≡◌, Bool, true, false, not, ◌&&◌, ◌||◌, Option, none, some, List, [], ◌∷◌, ◌==◌, ◌!=◌,
  any, keep_if, length, if◌then◌else◌, Result, ok, throw, ◌>>=◌, ◌>>◌, throw_if, ℕ, string_eq,
  nat_eq,
}
use ariava.Prelude.Dict.{Dict, lookup, insert, keys, values}
use ariava.Store.Comparison.{same_result, same_command_claim, execution_state_eq, outbox_state_eq}
use ariava.Store.Execution.{Checks, OutboxInput, assert_receipt_outbox, assert_command_execution}
use ariava.Store.State.{
  Timestamp, EncryptedCommand, CommandResult, PinReference, OutboxState, pending, ReceiptOutbox,
  claimed, dispatch_started, outcome_unknown, terminal_receipt_blocked, terminal, CommandExecution,
  BridgeState, StateTransition, unchanged, replaced, StoreError, not_claimed, invalid_binding,
  cannot_start_dispatch, cannot_become_unknown, cannot_persist_result, cannot_become_terminal,
  result_is_immutable, outbox_cannot_transition,
}

pub data ClaimResult : Type 0 where
  newly_claimed duplicate : CommandExecution → ClaimResult
  conflict : ClaimResult

abbrev pub with_executions : BridgeState → Dict CommandExecution → BridgeState
with_executions s executions = record s { command_executions = executions }

pub require_command_execution : BridgeState → String → Result StoreError CommandExecution
require_command_execution state id = elim (lookup state.command_executions id) [
  | none ↦ throw not_claimed
  | some e ↦ ok e
]

pub record ClaimInput : Type 0 where
  pub original_encrypted_command : EncryptedCommand
  pub command_digest : String
  pub pin_reference : PinReference
  pub claimed_at : Timestamp

abbrev pub claim_candidate : ClaimInput → CommandExecution
claim_candidate input = record {
  original_encrypted_command = input.original_encrypted_command;
  command_digest = input.command_digest;
  pin_reference = input.pin_reference;
  watch_device_id = input.original_encrypted_command.watch_device_id;
  nonce = input.original_encrypted_command.nonce;
  expires_at = input.original_encrypted_command.expires_at;
  state = claimed;
  claimed_at = input.claimed_at;
  dispatch_started_at = none;
  terminal_result = none;
  receipt_outbox = none;
}

abbrev pub same_nonce : CommandExecution → CommandExecution → Bool
same_nonce candidate e =
    e.watch_device_id == candidate.watch_device_id && e.nonce == candidate.nonce

-- The part of `claimCommandExecutionTransition` after the check of the candidate.
pub claim_checked :
    BridgeState → String → CommandExecution → Option CommandExecution → StateTransition ClaimResult
claim_checked state id candidate (some existing) =
    if same_command_claim existing candidate
    then record { state = unchanged; result = duplicate existing }
    else record { state = unchanged; result = conflict }
claim_checked state id candidate none =
    if any (same_nonce candidate) (values state.command_executions)
    then record { state = unchanged; result = conflict }
    else record {
      state = replaced (with_executions state (insert state.command_executions id candidate));
      result = newly_claimed candidate;
    }

abbrev pub is_orphan : CommandExecution → Bool
is_orphan e = e.state == claimed || e.state == dispatch_started

abbrev pub is_orphan_at : Dict CommandExecution → String → Bool
is_orphan_at executions id = elim (lookup executions id) [ none ↦ false | some e ↦ is_orphan e ]

abbrev pub as_unknown : CommandExecution → CommandExecution
as_unknown e = record e { state = outcome_unknown }

-- The loop over the orphans' ids.
pub set_unknown : Dict CommandExecution → List String → Dict CommandExecution
set_unknown executions [] = executions
set_unknown executions (id ∷ ids) = elim (lookup executions id) [
  | none ↦ set_unknown executions ids
  | some e ↦ set_unknown (insert executions id (as_unknown e)) ids
]

pub recover_orphaned : BridgeState → StateTransition ℕ
recover_orphaned state =
    let orphan_ids =
      keep_if (is_orphan_at state.command_executions) (keys state.command_executions) in
    if length orphan_ids == 0 then record { state = unchanged; result = 0 } else record {
      state = replaced (with_executions state (set_unknown state.command_executions orphan_ids));
      result = length orphan_ids;
    }

module _ (checks : Checks) where
  pub replace_execution :
      BridgeState → String → CommandExecution → Result StoreError (StateTransition CommandExecution)
  replace_execution state id e = do
    assert_command_execution checks e
    throw_if (e.original_encrypted_command.command_id != id) invalid_binding
    ok (record {
      state = replaced (with_executions state (insert state.command_executions id e));
      result = e;
    })

  unfoldable pub claim : BridgeState → ClaimInput → Result StoreError (StateTransition ClaimResult)
  unfolding claim_checked
  claim state input = do
    assert_command_execution checks (claim_candidate input)
    let id = input.original_encrypted_command.command_id
    ok (claim_checked state id (claim_candidate input) (lookup state.command_executions id))

  pub mark_dispatch_started :
      BridgeState → String → Timestamp → Result StoreError (StateTransition CommandExecution)
  unfolding require_command_execution replace_execution
  mark_dispatch_started state id at = do
    current ← require_command_execution state id
    throw_if (current.state != claimed) cannot_start_dispatch
    replace_execution state id
        (record current { state = dispatch_started; dispatch_started_at = some at })

  pub mark_outcome_unknown :
      BridgeState → String → Result StoreError (StateTransition CommandExecution)
  unfolding require_command_execution replace_execution
  mark_outcome_unknown state id = do
    current ← require_command_execution state id
    throw_if (current.state != claimed && current.state != dispatch_started) cannot_become_unknown
    replace_execution state id (record current { state = outcome_unknown })

  pub persist_receipt_blocked :
      BridgeState → String → CommandResult → Result StoreError (StateTransition CommandExecution)
  unfolding require_command_execution replace_execution
  persist_receipt_blocked state id result = do
    current ← require_command_execution state id
    throw_if (current.state != claimed && current.state != dispatch_started) cannot_persist_result
    replace_execution state id
        (record current { state = terminal_receipt_blocked; terminal_result = some result })

  pub persist_terminal_receipt :
      BridgeState
      → String
      → CommandResult
      → OutboxInput
      → Result StoreError (StateTransition CommandExecution)
  unfolding require_command_execution replace_execution
  persist_terminal_receipt state id result outbox = do
    current ← require_command_execution state id
    throw_if
        (current.state != claimed
          && current.state != dispatch_started
          && current.state != terminal_receipt_blocked)
        cannot_become_terminal
    throw_if
        (current.state == terminal_receipt_blocked
          && not (same_result current.terminal_result result))
        result_is_immutable
    assert_receipt_outbox checks current result outbox
    replace_execution state id (record current {
      state = terminal;
      terminal_result = some result;
      receipt_outbox = some (record {
        state = pending;
        canonical_body = outbox.canonical_body;
        receipt_digest = outbox.receipt_digest;
      });
    })

  -- `current.state !== 'terminal' || !outbox || outbox.state !== 'pending'` throws.
  abbrev mark_outbox :
      BridgeState
      → String
      → CommandExecution
      → OutboxState
      → Option ReceiptOutbox
      → Result StoreError (StateTransition CommandExecution)
  mark_outbox state id current to none = throw outbox_cannot_transition
  mark_outbox state id current to (some outbox) = do
    throw_if (current.state != terminal || outbox.state != pending) outbox_cannot_transition
    replace_execution state id
        (record current { receipt_outbox = some (record outbox { state = to }) })

  -- `markCommandReceiptOutboxTransition`, where `to` is acknowledged or undeliverable.
  pub mark_receipt_outbox :
      BridgeState → String → OutboxState → Result StoreError (StateTransition CommandExecution)
  unfolding require_command_execution replace_execution
  mark_receipt_outbox state id to = do
    current ← require_command_execution state id
    mark_outbox state id current to current.receipt_outbox
