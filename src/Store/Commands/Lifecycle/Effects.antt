-- ===== src/Store/Commands/Lifecycle/Effects.antt =====
-- Each transition of apps/bridge/src/state-store/command-transitions.ts has one of the effects.
use ariava.Prelude.{
  String, ◌≡◌, refl, sym, ap, ◌∙◌, ◌⊎◌, inl, inr, true, false, not, ◌&&◌, ◌||◌, Option, none, some,
  ◌==◌, ◌!=◌, any, length, Result, ok, throw_if, string_eq, nat_eq, >>=-eq-ok, >>-eq-ok,
  throw_if-eq-ok, ok-injective, Bool-cases, arith, eq_iff,
}
use ariava.Prelude.Dict.{lookup-insert_self, lookup, insert, values}
use ariava.Store.Comparison.{same_result, same_command_claim, execution_state_eq, outbox_state_eq}
use ariava.Store.Execution.{Checks, OutboxInput, assert_receipt_outbox, assert_command_execution}
use ariava.Store.State.{
  Timestamp, CommandResult, OutboxState, pending, ReceiptOutbox, claimed, dispatch_started,
  terminal_receipt_blocked, terminal, CommandExecution, BridgeState, StateTransition, StoreError,
  after, invalid_binding, cannot_start_dispatch, cannot_become_unknown, cannot_persist_result,
  cannot_become_terminal, result_is_immutable, outbox_cannot_transition,
}
use ariava.Store.Commands.{
  ClaimInput, ClaimResult, claim_candidate, claim_checked, same_nonce, with_executions, is_orphan,
  recover_orphaned, require_command_execution, replace_execution, claim, mark_dispatch_started,
  mark_outcome_unknown, persist_receipt_blocked, persist_terminal_receipt, mark_outbox,
  mark_receipt_outbox,
}
use ariava.Store.Commands.Lifecycle.{
  Operation, claims, starts, loses, blocks, finishes, delivers, recovers, next_state, apply, Moves,
  started, lost, blocked, finished, delivered, orphan_ids, Effect, nothing, moved, newly, recovered,
}

required :
    (s : BridgeState) (id : String) {e : CommandExecution}
    → require_command_execution s id ≡ ok e
    → lookup s.command_executions id ≡ some e
unfolding require_command_execution
required s id h = ground arith

abbrev with_execution : BridgeState → String → CommandExecution → BridgeState
with_execution s id e = with_executions s (insert s.command_executions id e)

-- A transition that succeeds did so in the code that makes it.
module _ {ℓ} {A : Type ℓ} (s s' : BridgeState) (m : Result StoreError (StateTransition A)) where
  came_from : next_state s m ≡ ok s' → (t : StateTransition A) × (m ≡ ok t) × (after s t ≡ s')
  came_from h =
      let (t, done, out) = >>=-eq-ok m (λ t. ok (after s t)) h in (t, done, ok-injective out)

replaced-ok :
    (checks : Checks) (s : BridgeState) (id : String) (e : CommandExecution)
    (t : StateTransition CommandExecution)
    → replace_execution checks s id e ≡ ok t
    → (assert_command_execution checks e ≡ ok tt)
      × (e.original_encrypted_command.command_id ≡ id)
      × (with_execution s id e ≡ after s t)
unfolding replace_execution
replaced-ok checks s id e t h =
    let (fine, rest) = >>-eq-ok (assert_command_execution checks e) _ h in
    let (named, made) =
      >>-eq-ok (throw_if (e.original_encrypted_command.command_id != id) invalid_binding) _ rest in
    (
      fine,
      ground (arith, throw_if-eq-ok _ _ named, eq_iff e.original_encrypted_command.command_id id),
      ap (after s) (ok-injective made),
    )

-- An execution that is replaced has moved.
replaced_moved :
    (checks : Checks) (s : BridgeState) (id : String) (e e' : CommandExecution)
    (t : StateTransition CommandExecution)
    → lookup s.command_executions id ≡ some e
    → Moves e e'
    → replace_execution checks s id e' ≡ ok t
    → Effect checks s (after s t)
replaced_moved checks s id e e' t was m h =
    let (fine, named, made) = replaced-ok checks s id e' t h in
    rw (sym made) (moved id e e' was m fine named)

dispatch-Effect :
    (checks : Checks) (s : BridgeState) (id : String) (at : Timestamp)
    (t : StateTransition CommandExecution)
    → mark_dispatch_started checks s id at ≡ ok t
    → Effect checks s (after s t)
unfolding mark_dispatch_started
dispatch-Effect checks s id at t h =
    let (e, found, rest) = >>=-eq-ok (require_command_execution s id) _ h in
    let (legal, made) = >>-eq-ok (throw_if (e.state != claimed) cannot_start_dispatch) _ rest in
    replaced_moved checks s id e _ t (required s id found)
      (started e at
        (ground (arith, throw_if-eq-ok _ _ legal, execution_state_eq.same_as_iff e.state claimed)))
      made

unknown-Effect :
    (checks : Checks) (s : BridgeState) (id : String) (t : StateTransition CommandExecution)
    → mark_outcome_unknown checks s id ≡ ok t
    → Effect checks s (after s t)
unfolding mark_outcome_unknown
unknown-Effect checks s id t h =
    let (e, found, rest) = >>=-eq-ok (require_command_execution s id) _ h in
    let (legal, made) =
      >>-eq-ok (throw_if (e.state != claimed && e.state != dispatch_started) cannot_become_unknown)
        _ rest in
    replaced_moved checks s id e _ t (required s id found)
      (lost e (ground (arith, throw_if-eq-ok _ _ legal))) made

blocked-Effect :
    (checks : Checks) (s : BridgeState) (id : String) (result : CommandResult)
    (t : StateTransition CommandExecution)
    → persist_receipt_blocked checks s id result ≡ ok t
    → Effect checks s (after s t)
unfolding persist_receipt_blocked
blocked-Effect checks s id result t h =
    let (e, found, rest) = >>=-eq-ok (require_command_execution s id) _ h in
    let (legal, made) =
      >>-eq-ok (throw_if (e.state != claimed && e.state != dispatch_started) cannot_persist_result)
        _ rest in
    replaced_moved checks s id e _ t (required s id found)
      (blocked e result (ground (arith, throw_if-eq-ok _ _ legal))) made

-- The states from which the guards of `persist_terminal_receipt` let an execution finish.
may_finish :
    (e : CommandExecution) (result : CommandResult)
    → (e.state != claimed && e.state != dispatch_started && e.state != terminal_receipt_blocked)
      ≡ false
    → (e.state == terminal_receipt_blocked && not (same_result e.terminal_result result)) ≡ false
    → (is_orphan e ≡ true)
      ⊎ ((e.state ≡ terminal_receipt_blocked) × (same_result e.terminal_result result ≡ true))
may_finish e result legal same =
    ground (arith, execution_state_eq.same_as_iff e.state terminal_receipt_blocked)

terminal-Effect :
    (checks : Checks) (s : BridgeState) (id : String) (result : CommandResult) (o : OutboxInput)
    (t : StateTransition CommandExecution)
    → persist_terminal_receipt checks s id result o ≡ ok t
    → Effect checks s (after s t)
unfolding persist_terminal_receipt
terminal-Effect checks s id result o t h =
    let (e, found, rest) = >>=-eq-ok (require_command_execution s id) _ h in
    let (legal, rest) =
      >>-eq-ok
        (throw_if
          (e.state != claimed && e.state != dispatch_started && e.state != terminal_receipt_blocked)
          cannot_become_terminal)
        _ rest in
    let (same, rest) =
      >>-eq-ok
        (throw_if
          (e.state == terminal_receipt_blocked && not (same_result e.terminal_result result))
          result_is_immutable)
        _ rest in
    let (_, made) = >>-eq-ok (assert_receipt_outbox checks e result o) _ rest in
    replaced_moved checks s id e _ t (required s id found)
      (finished e result _
        (may_finish e result (throw_if-eq-ok _ _ legal) (throw_if-eq-ok _ _ same)))
      made

outbox-Effect :
    (checks : Checks) (s : BridgeState) (id : String) (to : OutboxState) (e : CommandExecution)
    (t : StateTransition CommandExecution)
    → lookup s.command_executions id ≡ some e
    → (o : Option ReceiptOutbox) → e.receipt_outbox ≡ o
    → mark_outbox checks s id e to o ≡ ok t
    → Effect checks s (after s t)
outbox-Effect checks s id to e t was none has h = cc
outbox-Effect checks s id to e t was (some outbox) has h =
    let (legal, made) =
      >>-eq-ok (throw_if (e.state != terminal || outbox.state != pending) outbox_cannot_transition)
        _ h in
    replaced_moved checks s id e _ t was
      (delivered e outbox to
        (ground (arith, throw_if-eq-ok _ _ legal, execution_state_eq.same_as_iff e.state terminal))
        has
        (ground
          (arith, throw_if-eq-ok _ _ legal, outbox_state_eq.same_as_iff outbox.state pending)))
      made

receipt-Effect :
    (checks : Checks) (s : BridgeState) (id : String) (to : OutboxState)
    (t : StateTransition CommandExecution)
    → mark_receipt_outbox checks s id to ≡ ok t
    → Effect checks s (after s t)
unfolding mark_receipt_outbox
receipt-Effect checks s id to t h =
    let (e, found, made) = >>=-eq-ok (require_command_execution s id) _ h in
    outbox-Effect checks s id to e t (required s id found) _ refl made

claim_checked-Effect :
    (checks : Checks) (s : BridgeState) (input : ClaimInput)
    → assert_command_execution checks (claim_candidate input) ≡ ok tt
    → (o : Option CommandExecution)
    → lookup s.command_executions input.original_encrypted_command.command_id ≡ o
    → Effect checks s (
        after s
          (claim_checked s input.original_encrypted_command.command_id (claim_candidate input) o))
unfolding claim_checked
claim_checked-Effect checks s input fine (some existing) was =
    elim (Bool-cases (same_command_claim existing (claim_candidate input))) [
      | inl same ↦ rw same nothing
      | inr other ↦ rw other nothing
    ]
claim_checked-Effect checks s input fine none was =
    elim (Bool-cases (any (same_nonce (claim_candidate input)) (values s.command_executions))) [
      | inl used ↦ rw used nothing
      | inr fresh ↦ rw fresh (newly input was fresh fine)
    ]

claim-Effect :
    (checks : Checks) (s : BridgeState) (input : ClaimInput) (t : StateTransition ClaimResult)
    → claim checks s input ≡ ok t
    → Effect checks s (after s t)
unfolding claim
claim-Effect checks s input t h =
    let (fine, made) = >>-eq-ok (assert_command_execution checks (claim_candidate input)) _ h in
    rw (sym (ok-injective made)) (claim_checked-Effect checks s input fine _ refl)

recover-Effect :
    (checks : Checks) (s : BridgeState) → Effect checks s (after s (recover_orphaned s))
unfolding recover_orphaned
recover-Effect checks s = elim (Bool-cases (length (orphan_ids s.command_executions) == 0)) [
  | inl none_left ↦ rw none_left nothing
  | inr some_left ↦ rw some_left recovered
]

-- Whatever operation succeeds, the state afterwards is one of the four effects on the state before.
pub apply-Effect :
    (checks : Checks) (s : BridgeState) (op : Operation) {s' : BridgeState}
    → apply checks s op ≡ ok s'
    → Effect checks s s'
apply-Effect checks s (claims input) h =
    let (t, done, out) = came_from s _ _ h in rw (sym out) (claim-Effect checks s input t done)
apply-Effect checks s (starts id at) h =
    let (t, done, out) = came_from s _ _ h in rw (sym out) (dispatch-Effect checks s id at t done)
apply-Effect checks s (loses id) h =
    let (t, done, out) = came_from s _ _ h in rw (sym out) (unknown-Effect checks s id t done)
apply-Effect checks s (blocks id r) h =
    let (t, done, out) = came_from s _ _ h in rw (sym out) (blocked-Effect checks s id r t done)
apply-Effect checks s (finishes id r o) h =
    let (t, done, out) = came_from s _ _ h in rw (sym out) (terminal-Effect checks s id r o t done)
apply-Effect checks s (delivers id to) h =
    let (t, done, out) = came_from s _ _ h in rw (sym out) (receipt-Effect checks s id to t done)
apply-Effect checks s recovers h = rw (sym (ok-injective h)) (recover-Effect checks s)

-- A dispatch that starts found its command claimed, and leaves it started.
pub starts-ok :
    (checks : Checks) (s s' : BridgeState) (id : String) (at : Timestamp)
    → apply checks s (starts id at) ≡ ok s'
    → (e : CommandExecution) × (lookup s.command_executions id ≡ some e)
      × (e.state ≡ claimed)
      × (lookup s'.command_executions id
          ≡ some (record e { state = dispatch_started; dispatch_started_at = some at }))
unfolding mark_dispatch_started
starts-ok checks s s' id at h =
    let (t, done, out) = came_from s s' _ h in
    let (e, found, rest) = >>=-eq-ok (require_command_execution s id) _ done in
    let (legal, made) = >>-eq-ok (throw_if (e.state != claimed) cannot_start_dispatch) _ rest in
    let (_, _, after_is) = replaced-ok checks s id _ t made in
    (
      e,
      required s id found,
      ground (arith, throw_if-eq-ok _ _ legal, execution_state_eq.same_as_iff e.state claimed),
      ap (λ x. lookup x.command_executions id) (sym (after_is ∙ out)) ∙ lookup-insert_self _ id _,
    )
