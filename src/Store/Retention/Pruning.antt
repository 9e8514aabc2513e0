-- ===== src/Store/Retention/Pruning.antt =====
-- What a pruning removes and keeps: apps/bridge/src/state-store/command-transitions.ts.
use mathlib.Core.Path.{subst}
use ariava.Prelude.{
  String, ◌≡◌, refl, sym, ap, ◌∙◌, none, some, List, [], ◌∷◌, ◌==◌, ltb, if◌then◌else◌, ok,
  >>=-eq-ok, ok-injective, string_eq, arith, eq_iff, Bool-cases, inl, inr,
}
use ariava.Prelude.Dict.{Dict, lookup, remove, lookup-remove, has_key}
use ariava.Store.State.{Timestamp, CommandExecution, BridgeState, StateTransition, after}
use ariava.Store.Retention.{retained_through, eligible, remove_all, prune_with, prune_eligible}

pub lookup-remove_all :
    (removed d : Dict CommandExecution) (k : String)
    → lookup (remove_all removed d) k ≡ (if has_key removed k then none else lookup d k)
unfolding remove_all lookup
lookup-remove_all [] d k = refl
lookup-remove_all ((id, e) ∷ removed) d k =
    ground (arith, lookup-remove_all removed (remove d id) k, lookup-remove d id k)

-- Every key stands in the map once, as in an object.
abbrev pub KeysDistinct : Dict CommandExecution → Type 0
KeysDistinct [] = Unit
KeysDistinct ((k, e) ∷ d) = (lookup d k ≡ none) × KeysDistinct d

-- What `eligible` did with its first entry.
eligible-cons :
    (now : Timestamp) (id : String) (f : CommandExecution) (d out : Dict CommandExecution)
    → eligible now ((id, f) ∷ d) ≡ ok out
    → (through : Timestamp) × (rest : Dict CommandExecution) × (retained_through f ≡ ok through)
      × (eligible now d ≡ ok rest)
      × ((if ltb through now then (id, f) ∷ rest else rest) ≡ out)
unfolding eligible
eligible-cons now id f d out h =
    let (through, kept, h1) = >>=-eq-ok (retained_through f) _ h in
    let (rest, found, h2) = >>=-eq-ok (eligible now d) _ h1 in
    (through, rest, kept, found, ok-injective h2)

eligible-fresh :
    (now : Timestamp) (d out : Dict CommandExecution) (k : String)
    → eligible now d ≡ ok out
    → lookup d k ≡ none
    → lookup out k ≡ none
unfolding eligible lookup
eligible-fresh now [] out k h gone = rw (sym (ok-injective h)) refl
eligible-fresh now ((id, f) ∷ d) out k h gone =
    let (through, rest, kept, found, made) = eligible-cons now id f d out h in
    rw (sym made) (ground (arith, eligible-fresh now d rest k found))

eligible-lookup :
    (now : Timestamp) (d out : Dict CommandExecution) (k : String) (e : CommandExecution)
    → KeysDistinct d
    → eligible now d ≡ ok out
    → lookup d k ≡ some e
    → (through : Timestamp) × (retained_through e ≡ ok through) × (has_key out k ≡ ltb through now)
unfolding lookup
eligible-lookup now [] out k e distinct h has = cc
eligible-lookup now ((id, f) ∷ d) out k e (fresh, distinct) h has =
    let (through, rest, kept, found, made) = eligible-cons now id f d out h in
    elim (Bool-cases (id == k)) [
      | inl here ↦
          let same : f ≡ e = ground arith in
          let gone : lookup rest k ≡ none =
            eligible-fresh now d rest k found
              (subst (λ j. lookup d j ≡ none) ((eq_iff id k).0 here) fresh) in
          (through, rw (sym same) kept, rw (sym made) (ground (arith, gone)))
      | inr other ↦
          let was : lookup d k ≡ some e = ground arith in
          let (through', kept', key) = eligible-lookup now d rest k e distinct found was in
          (through', kept', rw (sym made, sym key) (ground arith))
    ]

prune-remaining :
    (state : BridgeState) (now : Timestamp) (t : StateTransition (List CommandExecution))
    → prune_eligible state now ≡ ok t
    → (out : Dict CommandExecution) × (eligible now state.command_executions ≡ ok out)
      × ((after state t).command_executions ≡ remove_all out state.command_executions)
unfolding prune_eligible remove_all
prune-remaining state now t h =
    let (out, found, made) = >>=-eq-ok (eligible now state.command_executions) _ h in
    (
      out,
      found,
      ap (λ x. (after state x).command_executions) (sym (ok-injective made)) ∙ pruned state out,
    )
  where
    pruned :
        (state : BridgeState) (out : Dict CommandExecution)
        → (after state (prune_with state out)).command_executions
          ≡ remove_all out state.command_executions
    pruned state [] = refl
    pruned state (entry ∷ entries) = refl

-- A pruning keeps an execution as it is while its retention lasts, and removes it once the
-- retention is over.
pub prune_eligible-lookup :
    (state : BridgeState) (now : Timestamp) (t : StateTransition (List CommandExecution))
    (k : String) (e : CommandExecution)
    → KeysDistinct state.command_executions
    → prune_eligible state now ≡ ok t
    → lookup state.command_executions k ≡ some e
    → (through : Timestamp) × (retained_through e ≡ ok through)
      × (lookup (after state t).command_executions k ≡ (if ltb through now then none else some e))
prune_eligible-lookup state now t k e distinct h has =
    let (out, found, remains) = prune-remaining state now t h in
    let (through, kept, key) =
      eligible-lookup now state.command_executions out k e distinct found has in
    (
      through,
      kept,
      ap (λ d. lookup d k) remains
          ∙ lookup-remove_all out state.command_executions k
          ∙ rw (key, has) refl,
    )
