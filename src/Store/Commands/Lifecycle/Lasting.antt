-- ===== src/Store/Commands/Lifecycle/Lasting.antt =====
-- What a run of operations on a stored command cannot undo:
-- apps/bridge/src/state-store/command-transitions.ts.
use mathlib.Core.Path.{subst}
use ariava.Prelude.{
  String, ◌≡◌, refl, sym, ap, inl, inr, Bool, true, ◌||◌, Option, none, some, List, [], ◌∷◌, ◌==◌,
  Result, ok, throw, string_eq, nat_eq, Bool-cases, arith, eq_iff,
}
use ariava.Prelude.Dict.{Dict, lookup, insert, lookup-insert}
use ariava.Store.Comparison.{same_result, same_result-eq, execution_state_eq}
use ariava.Store.Execution.{Checks}
use ariava.Store.State.{
  CommandResult, terminal_receipt_blocked, terminal, CommandExecution, BridgeState, StoreError,
}
use ariava.Store.Commands.{ClaimInput, claim_candidate, is_orphan, is_orphan_at, as_unknown}
use ariava.Store.Commands.Lifecycle.{
  Operation, apply, Moves, started, lost, blocked, finished, delivered, Effect, nothing, moved,
  newly, recovered,
}
use ariava.Store.Commands.Lifecycle.Effects.{apply-Effect}
use ariava.Store.Commands.Lifecycle.Recovery.{unknown_if, unknown_if-none, lookup-recovered}

-- What one operation does to the entry of one command.
pub data Change : Option CommandExecution → Option CommandExecution → Type 0 where
  same : (o : Option CommandExecution) → Change o o
  claimed_as : (input : ClaimInput) → Change none (some (claim_candidate input))
  moves : (e e' : CommandExecution) → Moves e e' → Change (some e) (some e')

inserted-Change :
    (d : Dict CommandExecution) (id k : String) (e' : CommandExecution)
    → Change (lookup d id) (some e')
    → Change (lookup d k) (lookup (insert d id e') k)
inserted-Change d id k e' change = elim (Bool-cases (id == k)) [
  | inl here ↦
      rw (lookup-insert d id e' k, here)
        (subst (λ j. Change (lookup d j) (some e')) ((eq_iff id k).0 here) change)
  | inr other ↦ rw (lookup-insert d id e' k, other) (same (lookup d k))
]

recovered-Change :
    (d : Dict CommandExecution) (k : String) (o : Option CommandExecution)
    → lookup d k ≡ o
    → Change o (unknown_if (is_orphan_at d k) o)
recovered-Change d k none has = rw (unknown_if-none (is_orphan_at d k)) (same none)
recovered-Change d k (some e) has = elim (Bool-cases (is_orphan e)) [
  | inl orphan ↦ rw (is_orphan_at, has, orphan) (moves e (as_unknown e) (lost e orphan))
  | inr settled ↦ rw (is_orphan_at, has, settled) (same (some e))
]

-- An operation that throws leaves the state as it was.
abbrev pub or_kept : BridgeState → Result StoreError BridgeState → BridgeState
or_kept s (ok s') = s'
or_kept s (throw e) = s

module _ (checks : Checks) where
  Effect-Change :
      (s s' : BridgeState) (k : String)
      → Effect checks s s'
      → Change (lookup s.command_executions k) (lookup s'.command_executions k)
  Effect-Change s _ k nothing = same _
  Effect-Change s _ k (moved id e e' was m fine named) =
      inserted-Change s.command_executions id k e' (rw was (moves e e' m))
  Effect-Change s _ k (newly input absent fresh fine) =
      inserted-Change s.command_executions input.original_encrypted_command.command_id k
        (claim_candidate input) (rw absent (claimed_as input))
  Effect-Change s _ k recovered =
      rw (lookup-recovered s.command_executions k)
        (recovered-Change s.command_executions k (lookup s.command_executions k) refl)

  -- A successful operation leaves each command's entry alone, claims it where there was none, or
  -- makes one of the moves of the state machine.
  pub apply-Change :
      (s : BridgeState) (op : Operation) (k : String) {s' : BridgeState}
      → apply checks s op ≡ ok s'
      → Change (lookup s.command_executions k) (lookup s'.command_executions k)
  apply-Change s op k {s'} h = Effect-Change s s' k (apply-Effect checks s op h)

  abbrev pub attempt : BridgeState → Operation → BridgeState
  attempt s op = or_kept s (apply checks s op)

  abbrev pub attempt_all : BridgeState → List Operation → BridgeState
  attempt_all s [] = s
  attempt_all s (op ∷ ops) = attempt_all (attempt s op) ops

  pub attempt-Change :
      (s : BridgeState) (op : Operation) (k : String) (m : Result StoreError BridgeState)
      → apply checks s op ≡ m
      → Change (lookup s.command_executions k) (lookup (or_kept s m).command_executions k)
  attempt-Change s op k (ok s') h = apply-Change s op k h
  attempt-Change s op k (throw e) h = same _

abbrev pub is_finished : CommandExecution → Bool
is_finished e = e.state == terminal_receipt_blocked || e.state == terminal

-- The entry has a terminal result.
abbrev pub HasResult : CommandResult → Option CommandExecution → Type 0
HasResult r none = ⊥
HasResult r (some e) = (e.terminal_result ≡ some r) × (is_finished e ≡ true)

not_both : (e : CommandExecution) → is_orphan e ≡ true → is_finished e ≡ true → ⊥
not_both e h1 h2 = ground arith

Moves-HasResult :
    (r : CommandResult) (e e' : CommandExecution)
    → Moves e e'
    → HasResult r (some e)
    → HasResult r (some e')
Moves-HasResult r _ _ (started e at h) (has, over) = ground arith
Moves-HasResult r _ _ (lost e h) (has, over) = elim (not_both e h over) [ ]
Moves-HasResult r _ _ (blocked e result h) (has, over) = elim (not_both e h over) [ ]
Moves-HasResult r _ _ (finished e result outbox (inl h)) (has, over) = elim (not_both e h over) [ ]
Moves-HasResult r _ _ (finished e result outbox (inr (h, agree))) (has, over) =
    let equal : same_result (some r) result ≡ true = rw (sym has) agree in
    (ap some (sym (same_result-eq r result equal)), refl)
Moves-HasResult r _ _ (delivered e outbox to h1 h2 h3) (has, over) = (has, over)

Change-HasResult :
    (r : CommandResult) (o o' : Option CommandExecution)
    → Change o o'
    → HasResult r o
    → HasResult r o'
Change-HasResult r _ _ (same o) h = h
Change-HasResult r _ _ (claimed_as input) h = elim h [ ]
Change-HasResult r _ _ (moves e e' m) h = Moves-HasResult r e e' m h

-- A terminal result, once it is stored, is that command's result after any operations, pruning
-- apart, whether they succeed or throw.
pub result_lasts :
    (checks : Checks) (ops : List Operation) (s : BridgeState) (k : String) (r : CommandResult)
    → HasResult r (lookup s.command_executions k)
    → HasResult r (lookup (attempt_all checks s ops).command_executions k)
result_lasts checks [] s k r h = h
result_lasts checks (op ∷ ops) s k r h =
    result_lasts checks ops (attempt checks s op) k r
      (Change-HasResult r _ _ (attempt-Change checks s op k _ refl) h)
