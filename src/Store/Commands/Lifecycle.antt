-- ===== src/Store/Commands/Lifecycle.antt =====
-- The operations on command executions as steps, and what each does to the stored executions:
-- apps/bridge/src/state-store/command-transitions.ts.
pub mod Effects
pub mod Recovery
pub mod Lasting
pub mod Dispatch
pub mod Claims
pub mod Relations
use ariava.Prelude.{
  String, ◌≡◌, refl, sym, ap, ◌∙◌, ◌⊎◌, inl, inr, Bool, true, false, not, ◌&&◌, ◌||◌, Option, none,
  some, List, [], ◌∷◌, ◌==◌, ◌!=◌, any, keep_if, length, if◌then◌else◌, Result, ok, throw, ◌>>=◌,
  ◌>>◌, throw_if, ℕ, string_eq, nat_eq, >>=-eq-ok, >>-eq-ok, throw_if-eq-ok, ok-injective,
  Bool-cases, Option-cases, arith, eq_iff,
}
use ariava.Prelude.Dict.{Dict, lookup, insert, keys, values}
use ariava.Store.Comparison.{same_result, same_command_claim, execution_state_eq, outbox_state_eq}
use ariava.Store.Execution.{Checks, OutboxInput, assert_receipt_outbox, assert_command_execution}
use ariava.Store.State.{
  Timestamp, EncryptedCommand, CommandResult, PinReference, OutboxState, pending, ReceiptOutbox,
  claimed, dispatch_started, outcome_unknown, terminal_receipt_blocked, terminal, CommandExecution,
  BridgeState, StateTransition, StoreError, after, invalid_binding, cannot_start_dispatch,
  cannot_become_unknown, cannot_persist_result, cannot_become_terminal, result_is_immutable,
  outbox_cannot_transition,
}
use ariava.Store.Commands.{
  ClaimInput, ClaimResult, claim_candidate, claim_checked, same_nonce, with_executions, is_orphan,
  is_orphan_at, as_unknown, set_unknown, recover_orphaned, require_command_execution,
  replace_execution, claim, mark_dispatch_started, mark_outcome_unknown, persist_receipt_blocked,
  persist_terminal_receipt, mark_outbox, mark_receipt_outbox,
}

pub data Operation : Type 0 where
  claims : ClaimInput → Operation
  starts : String → Timestamp → Operation
  loses : String → Operation
  blocks : String → CommandResult → Operation
  finishes : String → CommandResult → OutboxInput → Operation
  delivers : String → OutboxState → Operation
  recovers : Operation

abbrev pub next_state {ℓ} :
    {A : Type ℓ}
    → BridgeState
    → Result StoreError (StateTransition A)
    → Result StoreError BridgeState
next_state s m = m >>= λ t. ok (after s t)

abbrev pub apply : Checks → BridgeState → Operation → Result StoreError BridgeState
apply checks s (claims input) = next_state s (claim checks s input)
apply checks s (starts id at) = next_state s (mark_dispatch_started checks s id at)
apply checks s (loses id) = next_state s (mark_outcome_unknown checks s id)
apply checks s (blocks id result) = next_state s (persist_receipt_blocked checks s id result)
apply checks s (finishes id result outbox) =
    next_state s (persist_terminal_receipt checks s id result outbox)
apply checks s (delivers id to) = next_state s (mark_receipt_outbox checks s id to)
apply checks s recovers = ok (after s (recover_orphaned s))

-- The moves of one execution that the state machine admits.
pub data Moves : CommandExecution → CommandExecution → Type 0 where
  started :
      (e : CommandExecution) (at : Timestamp)
      → e.state ≡ claimed
      → Moves e (record e { state = dispatch_started; dispatch_started_at = some at })
  lost : (e : CommandExecution) → is_orphan e ≡ true → Moves e (as_unknown e)
  blocked :
      (e : CommandExecution) (result : CommandResult)
      → is_orphan e ≡ true
      → Moves e (record e { state = terminal_receipt_blocked; terminal_result = some result })
  finished :
      (e : CommandExecution) (result : CommandResult) (outbox : ReceiptOutbox)
      → (is_orphan e ≡ true)
        ⊎ ((e.state ≡ terminal_receipt_blocked) × (same_result e.terminal_result result ≡ true))
      → Moves e (record e {
        state = terminal;
        terminal_result = some result;
        receipt_outbox = some outbox;
      })
  delivered :
      (e : CommandExecution) (outbox : ReceiptOutbox) (to : OutboxState)
      → e.state ≡ terminal
      → e.receipt_outbox ≡ some outbox
      → outbox.state ≡ pending
      → Moves e (record e { receipt_outbox = some (record outbox { state = to }) })

abbrev pub orphan_ids : Dict CommandExecution → List String
orphan_ids executions = keep_if (is_orphan_at executions) (keys executions)

-- What a successful operation makes of the state.
pub data Effect (checks : Checks) (s : BridgeState) : BridgeState → Type 0 where
  nothing : Effect checks s s
  moved :
      (id : String) (e e' : CommandExecution)
      → lookup s.command_executions id ≡ some e
      → Moves e e'
      → assert_command_execution checks e' ≡ ok tt
      → e'.original_encrypted_command.command_id ≡ id
      → Effect checks s (with_executions s (insert s.command_executions id e'))
  newly :
      (input : ClaimInput)
      → lookup s.command_executions input.original_encrypted_command.command_id ≡ none
      → any (same_nonce (claim_candidate input)) (values s.command_executions) ≡ false
      → assert_command_execution checks (claim_candidate input) ≡ ok tt
      → Effect checks s (
          with_executions s (
            insert s.command_executions input.original_encrypted_command.command_id
              (claim_candidate input)))
  recovered :
      Effect checks s
        (with_executions s (set_unknown s.command_executions (orphan_ids s.command_executions)))
