-- ===== src/Store/Commands/Lifecycle/Dispatch.antt =====
-- A command is dispatched at most once between claims of its id:
-- apps/bridge/src/state-store/command-transitions.ts.
use mathlib.Core.Path.{subst}
use ariava.Prelude.{
  String, ◌≡◌, refl, inl, inr, Option, none, some, List, [], ◌∷◌, ◌==◌, if◌then◌else◌, Result, ok,
  throw, ℕ, ◌+◌, ◌≤◌, string_eq, nat_eq, Bool-cases, arith, eq_iff,
}
use ariava.Prelude.Dict.{lookup}
use ariava.Store.Comparison.{execution_state_eq}
use ariava.Store.Execution.{Checks}
use ariava.Store.State.{Timestamp, claimed, CommandExecution, BridgeState, StoreError}
use ariava.Store.Commands.Lifecycle.{
  Operation, starts, apply, Moves, started, lost, blocked, finished, delivered,
}
use ariava.Store.Commands.Lifecycle.Effects.{starts-ok}
use ariava.Store.Commands.Lifecycle.Lasting.{
  Change, same, claimed_as, moves, apply-Change, or_kept, attempt,
}

-- What is left of a command's one dispatch.
abbrev dispatches_left : Option CommandExecution → ℕ
dispatches_left none = 1
dispatches_left (some e) = if e.state == claimed then 1 else 0

Moves-left :
    (e e' : CommandExecution) → Moves e e' → dispatches_left (some e') ≤ dispatches_left (some e)
Moves-left _ _ (started e at h) = omega arith
Moves-left _ _ (lost e h) = omega arith
Moves-left _ _ (blocked e result h) = omega arith
Moves-left _ _ (finished e result outbox h) = omega arith
Moves-left _ _ (delivered e outbox to h1 h2 h3) = omega arith

Change-left :
    (o o' : Option CommandExecution) → Change o o' → dispatches_left o' ≤ dispatches_left o
Change-left _ _ (same o) = omega arith
Change-left _ _ (claimed_as input) = omega arith
Change-left _ _ (moves e e' m) = Moves-left e e' m

-- Whether the operation starts the command's dispatch, and succeeds.
abbrev started_by : String → Operation → Result StoreError BridgeState → ℕ
started_by k (starts id at) (ok s') = if id == k then 1 else 0
started_by k _ _ = 0

-- How often the command's dispatch was started in a run of operations.
abbrev pub dispatches : Checks → String → BridgeState → List Operation → ℕ
dispatches checks k s [] = 0
dispatches checks k s (op ∷ ops) =
    started_by k op (apply checks s op) + dispatches checks k (attempt checks s op) ops

start-left :
    (checks : Checks) (s s' : BridgeState) (id : String) (at : Timestamp)
    → apply checks s (starts id at) ≡ ok s'
    → 1 + dispatches_left (lookup s'.command_executions id)
      ≡ dispatches_left (lookup s.command_executions id)
start-left checks s s' id at h =
    let (e, was, is_claimed, becomes) = starts-ok checks s s' id at h in
    rw (was, becomes) (ground (arith, execution_state_eq.same_as_iff e.state claimed))

attempt-left :
    (checks : Checks) (k : String) (s : BridgeState) (op : Operation)
    (m : Result StoreError BridgeState)
    → apply checks s op ≡ m
    → started_by k op m + dispatches_left (lookup (or_kept s m).command_executions k)
      ≤ dispatches_left (lookup s.command_executions k)
attempt-left checks k s (starts id at) (ok s') h = elim (Bool-cases (id == k)) [
  | inl here ↦ rw here (
      subst
        (λ j.
          1 + dispatches_left (lookup s'.command_executions j)
          ≤ dispatches_left (lookup s.command_executions j))
        ((eq_iff id k).0 here) (omega (arith, start-left checks s s' id at h)))
  | inr other ↦ rw other (omega (arith, Change-left _ _ (apply-Change checks s (starts id at) k h)))
]
attempt-left checks k s (starts id at) (throw e) h = omega arith
attempt-left checks k s op (throw e) h = omega arith
attempt-left checks k s op (ok s') h = omega (arith, Change-left _ _ (apply-Change checks s op k h))

dispatches-left :
    (checks : Checks) (k : String) (ops : List Operation) (s : BridgeState)
    → dispatches checks k s ops ≤ dispatches_left (lookup s.command_executions k)
dispatches-left checks k [] s = omega arith
dispatches-left checks k (op ∷ ops) s = omega (
  arith,
  attempt-left checks k s op (apply checks s op) refl,
  dispatches-left checks k ops (attempt checks s op),
)

left-bound : (o : Option CommandExecution) → dispatches_left o ≤ 1
left-bound none = omega arith
left-bound (some e) = ground arith

-- However the operations follow each other, succeed or throw, one command's dispatch starts at most
-- once; pruning is not among them.
pub dispatches-bound :
    (checks : Checks) (k : String) (s : BridgeState) (ops : List Operation)
    → dispatches checks k s ops ≤ 1
dispatches-bound checks k s ops =
    omega (arith, dispatches-left checks k ops s, left-bound (lookup s.command_executions k))
