-- ===== src/Store/Execution/Orphans.antt =====
-- The check of an execution whose outcome has become unknown: `assertCommandExecution`,
-- apps/bridge/src/state-store/state-codec.ts.
use ariava.Prelude.{◌≡◌, refl, true, ◌||◌, Option, none, some, ◌==◌, ok, require, >>-eq-ok}
use ariava.Store.Comparison.{execution_state_eq}
use ariava.Store.Execution.{
  Checks, assert_state_shape, assert_command_execution, is_execution_shape, is_execution_binding,
  is_bound_result, is_receipt_outbox,
}
use ariava.Store.State.{
  Timestamp, CommandResult, ReceiptOutbox, ExecutionState, claimed, dispatch_started,
  outcome_unknown, terminal_receipt_blocked, terminal, CommandExecution, invalid_execution,
  invalid_binding, invalid_outbox,
}

orphan_shape :
    (checks : Checks) (e e' : CommandExecution) (s : ExecutionState) (t : Option Timestamp)
    (r : Option CommandResult) (o : Option ReceiptOutbox)
    → (s == claimed || s == dispatch_started) ≡ true
    → assert_state_shape checks e s t r o ≡ ok tt
    → assert_state_shape checks e' outcome_unknown t r o ≡ ok tt
unfolding assert_state_shape
orphan_shape checks e e' claimed none none none orphan h = refl
orphan_shape checks e e' claimed none none (some o) orphan h = cc
orphan_shape checks e e' claimed none (some r) none orphan h = cc
orphan_shape checks e e' claimed none (some r) (some o) orphan h = cc
orphan_shape checks e e' claimed (some t) none none orphan h = refl
orphan_shape checks e e' claimed (some t) none (some o) orphan h = cc
orphan_shape checks e e' claimed (some t) (some r) none orphan h = cc
orphan_shape checks e e' claimed (some t) (some r) (some o) orphan h = cc
orphan_shape checks e e' dispatch_started none none none orphan h = refl
orphan_shape checks e e' dispatch_started none none (some o) orphan h = cc
orphan_shape checks e e' dispatch_started none (some r) none orphan h = cc
orphan_shape checks e e' dispatch_started none (some r) (some o) orphan h = cc
orphan_shape checks e e' dispatch_started (some t) none none orphan h = refl
orphan_shape checks e e' dispatch_started (some t) none (some o) orphan h = cc
orphan_shape checks e e' dispatch_started (some t) (some r) none orphan h = cc
orphan_shape checks e e' dispatch_started (some t) (some r) (some o) orphan h = cc
orphan_shape checks e e' outcome_unknown t r o orphan h = cc
orphan_shape checks e e' terminal_receipt_blocked t r o orphan h = cc
orphan_shape checks e e' terminal t r o orphan h = cc

-- A valid execution that is claimed or started is also valid with its outcome unknown.
pub assert-unknown :
    (checks : Checks) (e : CommandExecution)
    → (e.state == claimed || e.state == dispatch_started) ≡ true
    → assert_command_execution checks e ≡ ok tt
    → assert_command_execution checks (record e { state = outcome_unknown }) ≡ ok tt
unfolding assert_command_execution
assert-unknown checks e orphan h =
    let (h1, rest) = >>-eq-ok (require (is_execution_shape checks e) invalid_execution) _ h in
    let (h2, rest) = >>-eq-ok (require (is_execution_binding checks e) invalid_binding) _ rest in
    let (h3, rest) =
      >>-eq-ok
        (require (is_bound_result checks e.original_encrypted_command e.terminal_result)
          invalid_binding)
        _ rest in
    let (h4, h5) =
      >>-eq-ok (require (is_receipt_outbox checks e.receipt_outbox) invalid_outbox) _ rest in
    rw (h1, h2, h3, h4)
      (orphan_shape checks e (record e { state = outcome_unknown }) _ _ _ _ orphan h5)
