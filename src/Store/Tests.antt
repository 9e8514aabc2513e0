-- ===== src/Store/Tests.antt =====
-- Commands on a concrete state: apps/bridge/src/state-store/command-transitions.ts.
use ariava.Prelude.{String, ◌≡◌, refl, ◌≤◌, none, some, [], ◌∷◌, ok, true, ltb, if◌then◌else◌}
use ariava.Prelude.Dict.{lookup, insert, remove}
use ariava.Store.State.{
  Timestamp, EncryptedCommand, CommandResult, reply, executed, terminal_receipt_blocked,
  CommandExecution, BridgeState, replaced,
}
use ariava.Store.Empty.{empty_state}
use ariava.Store.Execution.{Checks, assert_command_execution}
use ariava.Store.Commands.{ClaimInput, claim, claim_candidate, with_executions}
use ariava.Store.Commands.Lifecycle.{claims, starts, loses, recovers, apply}
use ariava.Store.Commands.Lifecycle.Claims.{IsDuplicate, HasClaim, claim_replayed}
use ariava.Store.Commands.Lifecycle.Dispatch.{dispatches, dispatches-bound}
use ariava.Store.Commands.Lifecycle.Lasting.{
  Change, HasResult, apply-Change, attempt_all, result_lasts,
}
use ariava.Store.Commands.Lifecycle.Relations.{CommandRelations, attempt_all-CommandRelations}
use ariava.Store.Retention.{prune_eligible, retained_through}
use ariava.Store.Retention.{References, refer, pin_key, pin_references, execution_retained}
use ariava.Store.Retention.Pins.{PinRetained, pin_references-PinRetained}
use ariava.Prelude.{ℕ, All}
use ariava.Store.Retention.Pruning.{prune_eligible-lookup}

-- A text of 43 characters.
abbrev sha_text : String
sha_text = "abcdefghijklmnopqrstuvwxyzABCDEFGHIJKLMNOPQ"

abbrev host_key : String
host_key = "ekey_abcdefghijklmnopqrstuvwxyzABCDEFGHIJKLMNOPQ"

abbrev watch_key : String
watch_key = "ekey_QbcdefghijklmnopqrstuvwxyzABCDEFGHIJKLMNOPa"

abbrev simple_checks : Checks
simple_checks = record {
  is_command = λ c. true;
  is_result = λ r. true;
  is_receipt = λ r. true;
  command_digest = λ c. sha_text;
  receipt_digest = λ r. sha_text;
  parse_receipt = λ s. none;
  receipt_text = λ r. "receipt";
}

abbrev stop_command : EncryptedCommand
stop_command = record {
  command_id = "c1";
  host_id = "host_1";
  session_id = "s1";
  kind = reply;
  payload = record {
    sender_encryption_key_id = watch_key;
    recipient_encryption_key_id = host_key;
    content = "sealed";
  };
  target_alert_event_id = none;
  issued_at = 1000;
  expires_at = 61000;
  nonce = "n1";
  watch_device_id = "w1";
  link_id = "l1";
  link_generation = 1;
  epoch = 1;
}

abbrev first_claim : ClaimInput
first_claim = record {
  original_encrypted_command = stop_command;
  command_digest = sha_text;
  pin_reference = record {
    link_id = "l1";
    link_generation = 1;
    epoch = 1;
    transcript_digest = sha_text;
    host_encryption_key_id = host_key;
    watch_encryption_key_id = watch_key;
  };
  claimed_at = 2000;
}

abbrev fresh_state : BridgeState
fresh_state = empty_state "epoch"

abbrev claimed_state : BridgeState
claimed_state = with_executions fresh_state (("c1", claim_candidate first_claim) ∷ [])

candidate_valid : assert_command_execution simple_checks (claim_candidate first_claim) ≡ ok tt
unfolding assert_command_execution
candidate_valid = refl

first_claim_ok : apply simple_checks fresh_state (claims first_claim) ≡ ok claimed_state
unfolding claim lookup insert
first_claim_ok = rw (claim, candidate_valid) refl

apply-Change_example :
    Change
      (lookup fresh_state.command_executions "c1")
      (lookup claimed_state.command_executions "c1")
apply-Change_example =
    apply-Change simple_checks fresh_state (claims first_claim) "c1" first_claim_ok

abbrev first_result : CommandResult
first_result = record {
  command_id = "c1";
  host_id = "host_1";
  session_id = "s1";
  accepted = true;
  status = executed;
  updated_at = 3000;
}

abbrev blocked_execution : CommandExecution
blocked_execution = record (claim_candidate first_claim) {
  state = terminal_receipt_blocked;
  terminal_result = some first_result;
}

abbrev blocked_state : BridgeState
blocked_state = with_executions fresh_state (("c1", blocked_execution) ∷ [])

blocked-HasResult : HasResult first_result (lookup blocked_state.command_executions "c1")
unfolding lookup
blocked-HasResult = (refl, refl)

result_lasts_example : HasResult first_result (
    lookup
      (attempt_all simple_checks blocked_state
        (recovers ∷ starts "c1" 4000 ∷ [])).command_executions
      "c1")
result_lasts_example =
    result_lasts simple_checks (recovers ∷ starts "c1" 4000 ∷ []) blocked_state "c1" first_result
      blocked-HasResult

dispatches-bound_example :
    dispatches simple_checks "c1" fresh_state
      (claims first_claim ∷ starts "c1" 4000 ∷ starts "c1" 5000 ∷ [])
    ≤ 1
dispatches-bound_example =
    dispatches-bound simple_checks "c1" fresh_state
      (claims first_claim ∷ starts "c1" 4000 ∷ starts "c1" 5000 ∷ [])

fresh-CommandRelations : CommandRelations simple_checks fresh_state.command_executions
unfolding lookup
fresh-CommandRelations = record { stored = λ k e h. cc; nonces = λ k j e f h1 h2 h3. cc }

attempt_all-CommandRelations_example :
    CommandRelations simple_checks
      (attempt_all simple_checks fresh_state
        (claims first_claim ∷ recovers ∷ [])).command_executions
attempt_all-CommandRelations_example =
    attempt_all-CommandRelations simple_checks (claims first_claim ∷ recovers ∷ []) fresh_state
      fresh-CommandRelations

claimed-HasClaim :
    HasClaim (claim_candidate first_claim) (lookup claimed_state.command_executions "c1")
unfolding lookup
claimed-HasClaim = (refl, refl, refl)

claim_replayed_example :
    IsDuplicate
      (attempt_all simple_checks claimed_state (starts "c1" 4000 ∷ loses "c1" ∷ []))
      first_claim
      (claim simple_checks
        (attempt_all simple_checks claimed_state (starts "c1" 4000 ∷ loses "c1" ∷ []))
        first_claim)
claim_replayed_example =
    claim_replayed simple_checks (starts "c1" 4000 ∷ loses "c1" ∷ []) claimed_state first_claim
      candidate_valid claimed-HasClaim

pruned_late :
    prune_eligible claimed_state 400000
    ≡ ok (record {
      state = replaced (with_executions claimed_state []);
      result = claim_candidate first_claim ∷ [];
    })
unfolding prune_eligible lookup remove
pruned_late = refl

claimed_has : lookup claimed_state.command_executions "c1" ≡ some (claim_candidate first_claim)
unfolding lookup
claimed_has = refl

prune_eligible-lookup_example :
    (through : Timestamp) × (retained_through (claim_candidate first_claim) ≡ ok through)
    × (lookup (with_executions claimed_state []).command_executions "c1"
        ≡ (if ltb through 400000 then none else some (claim_candidate first_claim)))
unfolding lookup
prune_eligible-lookup_example =
    prune_eligible-lookup claimed_state 400000 _ "c1" (claim_candidate first_claim) (refl, tt)
      pruned_late claimed_has

-- Every number in these examples is one.
abbrev decimal_one : ℕ → String
decimal_one n = "1"

abbrev no_references : References
no_references c = []

abbrev one_reference : References
one_reference =
    refer decimal_one no_references execution_retained
      (pin_key decimal_one first_claim.pin_reference) 361000

one_execution :
    pin_references decimal_one no_references (claim_candidate first_claim ∷ []) ≡ ok one_reference
unfolding pin_references
one_execution = refl

pin_references-PinRetained_example :
    All (PinRetained decimal_one one_reference) (claim_candidate first_claim ∷ [])
pin_references-PinRetained_example =
    pin_references-PinRetained decimal_one (claim_candidate first_claim ∷ []) no_references
      one_reference one_execution
