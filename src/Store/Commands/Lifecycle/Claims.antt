-- ===== src/Store/Commands/Lifecycle/Claims.antt =====
-- A claim that is repeated: `claimCommandExecutionTransition`,
-- apps/bridge/src/state-store/command-transitions.ts.
use ariava.Prelude.{
  String, ◌≡◌, refl, Option, none, some, List, [], ◌∷◌, Result, ok, string_eq, nat_eq,
}
use ariava.Prelude.Dict.{lookup}
use ariava.Store.Comparison.{same_command_claim-true, execution_state_eq}
use ariava.Store.Execution.{Checks, assert_command_execution}
use ariava.Store.State.{CommandExecution, BridgeState, StateTransition, unchanged, StoreError}
use ariava.Store.Commands.{
  ClaimInput, ClaimResult, duplicate, claim, claim_checked, claim_candidate,
}
use ariava.Store.Commands.Lifecycle.{Operation, Moves, started, lost, blocked, finished, delivered}
use ariava.Store.Commands.Lifecycle.Lasting.{
  Change, same, claimed_as, moves, attempt-Change, attempt, attempt_all,
}

-- The entry has the candidate's digest, command and pin.
abbrev pub HasClaim : CommandExecution → Option CommandExecution → Type 0
HasClaim c none = ⊥
HasClaim c (some e) =
    (e.command_digest ≡ c.command_digest)
    × (e.original_encrypted_command ≡ c.original_encrypted_command)
    × (e.pin_reference ≡ c.pin_reference)

Moves-HasClaim :
    (c e e' : CommandExecution) → Moves e e' → HasClaim c (some e) → HasClaim c (some e')
Moves-HasClaim c _ _ (started e at h) has = has
Moves-HasClaim c _ _ (lost e h) has = has
Moves-HasClaim c _ _ (blocked e result h) has = has
Moves-HasClaim c _ _ (finished e result outbox h) has = has
Moves-HasClaim c _ _ (delivered e outbox to h1 h2 h3) has = has

Change-HasClaim :
    (c : CommandExecution) (o o' : Option CommandExecution)
    → Change o o'
    → HasClaim c o
    → HasClaim c o'
Change-HasClaim c _ _ (same o) h = h
Change-HasClaim c _ _ (claimed_as input) h = elim h [ ]
Change-HasClaim c _ _ (moves e e' m) h = Moves-HasClaim c e e' m h

claim_lasts :
    (checks : Checks) (ops : List Operation) (s : BridgeState) (k : String) (c : CommandExecution)
    → HasClaim c (lookup s.command_executions k)
    → HasClaim c (lookup (attempt_all checks s ops).command_executions k)
claim_lasts checks [] s k c h = h
claim_lasts checks (op ∷ ops) s k c h =
    claim_lasts checks ops (attempt checks s op) k c
      (Change-HasClaim c _ _ (attempt-Change checks s op k _ refl) h)

abbrev pub IsDuplicate :
    BridgeState → ClaimInput → Result StoreError (StateTransition ClaimResult) → Type 0
IsDuplicate s input m =
    (e : CommandExecution) × (lookup s.command_executions
        input.original_encrypted_command.command_id
      ≡ some e)
    × (m ≡ ok (record { state = unchanged; result = duplicate e }))

checked-IsDuplicate :
    (s : BridgeState) (input : ClaimInput) (o : Option CommandExecution)
    → lookup s.command_executions input.original_encrypted_command.command_id ≡ o
    → HasClaim (claim_candidate input) o
    → IsDuplicate s input
        (ok (claim_checked s input.original_encrypted_command.command_id (claim_candidate input) o))
unfolding claim_checked
checked-IsDuplicate s input none was h = elim h [ ]
checked-IsDuplicate s input (some e) was (digest, command, pin) =
    (e, was, rw (same_command_claim-true e (claim_candidate input) digest command pin) refl)

-- A command that is stored stays claimed through any operations, pruning apart: a valid claim with
-- its digest, command and pin is then answered as a duplicate, with the stored execution, and
-- writes nothing.
pub claim_replayed :
    (checks : Checks) (ops : List Operation) (s : BridgeState) (input : ClaimInput)
    → assert_command_execution checks (claim_candidate input) ≡ ok tt
    → HasClaim
        (claim_candidate input)
        (lookup s.command_executions input.original_encrypted_command.command_id)
    → IsDuplicate (attempt_all checks s ops) input (claim checks (attempt_all checks s ops) input)
unfolding claim
claim_replayed checks ops s input fine stored = rw fine (
    checked-IsDuplicate (attempt_all checks s ops) input _ refl (
      claim_lasts checks ops s input.original_encrypted_command.command_id (claim_candidate input)
        stored))
