-- ===== src/Store/Commands/Lifecycle/Recovery.antt =====
-- The recovery of orphaned executions, seen through lookups: the loop of
-- `recoverOrphanedCommandExecutionsTransition`, apps/bridge/src/state-store/command-transitions.ts.
use ariava.Prelude.{
  String, ◌≡◌, refl, sym, ap, ◌∙◌, inl, inr, Bool, true, false, ◌&&◌, ◌||◌, Option, none, some,
  List, [], ◌∷◌, ◌==◌, keep_if, string_eq, nat_eq, Bool-cases, Option-cases, arith, eq_iff,
}
use ariava.Prelude.Dict.{Dict, lookup, insert, keys, contains, lookup-insert, contains-keys}
use ariava.Store.Comparison.{execution_state_eq}
use ariava.Store.State.{CommandExecution}
use ariava.Store.Commands.{is_orphan_at, as_unknown, set_unknown}
use ariava.Store.Commands.Lifecycle.{orphan_ids}

abbrev pub unknown_if : Bool → Option CommandExecution → Option CommandExecution
unknown_if true (some e) = some (as_unknown e)
unknown_if _ o = o

unknown_if-twice :
    (a b : Bool) (o : Option CommandExecution)
    → unknown_if a (unknown_if b o) ≡ unknown_if (b || a) o
unknown_if-twice a b none = ground arith
unknown_if-twice a b (some e) = ground arith

set_one : Dict CommandExecution → String → Dict CommandExecution
set_one executions id = elim (lookup executions id) [
  | none ↦ executions
  | some e ↦ insert executions id (as_unknown e)
]

untouched :
    (executions : Dict CommandExecution) (id k : String)
    → lookup executions id ≡ none
    → lookup executions k ≡ unknown_if (id == k) (lookup executions k)
untouched executions id k gone = elim (Bool-cases (id == k)) [
  | inl here ↦
      let gone_here : lookup executions k ≡ none = rw (sym ((eq_iff id k).0 here)) gone in
      rw (here, gone_here) refl
  | inr other ↦ rw other refl
]

overwritten :
    (executions : Dict CommandExecution) (id k : String) (e : CommandExecution)
    → lookup executions id ≡ some e
    → lookup (insert executions id (as_unknown e)) k ≡ unknown_if (id == k) (lookup executions k)
overwritten executions id k e has = elim (Bool-cases (id == k)) [
  | inl here ↦
      let has_here : lookup executions k ≡ some e = rw (sym ((eq_iff id k).0 here)) has in
      rw (lookup-insert executions id (as_unknown e) k, here, has_here) refl
  | inr other ↦ rw (lookup-insert executions id (as_unknown e) k, other) refl
]

lookup-set_one :
    (executions : Dict CommandExecution) (id k : String)
    → lookup (set_one executions id) k ≡ unknown_if (id == k) (lookup executions k)
unfolding set_one
lookup-set_one executions id k = elim (Option-cases (lookup executions id)) [
  | inl gone ↦ rw (set_one, gone) (untouched executions id k gone)
  | inr (e, has) ↦ rw (set_one, has) (overwritten executions id k e has)
]

set_unknown-one :
    (executions : Dict CommandExecution) (id : String) (ids : List String)
    → set_unknown executions (id ∷ ids) ≡ set_unknown (set_one executions id) ids
unfolding set_unknown set_one
set_unknown-one executions id ids = ground arith

set_unknown-none : (executions : Dict CommandExecution) → set_unknown executions [] ≡ executions
unfolding set_unknown
set_unknown-none executions = refl

pub lookup-set_unknown :
    (ids : List String) (executions : Dict CommandExecution) (k : String)
    → lookup (set_unknown executions ids) k ≡ unknown_if (contains ids k) (lookup executions k)
lookup-set_unknown [] executions k = rw (set_unknown-none executions) refl
lookup-set_unknown (id ∷ ids) executions k =
    rw
      (
        set_unknown-one executions id ids,
        lookup-set_unknown ids (set_one executions id) k,
        lookup-set_one executions id k,
      )
      (unknown_if-twice (contains ids k) (id == k) (lookup executions k))

contains-keep_if :
    (p : String → Bool) (ks : List String) (k : String)
    → contains (keep_if p ks) k ≡ contains ks k && p k
contains-keep_if p [] k = refl
contains-keep_if p (j ∷ js) k = ground (arith, contains-keep_if p js k, eq_iff j k, ap p)

pub unknown_if-none : (b : Bool) → unknown_if b none ≡ none
unknown_if-none true = refl
unknown_if-none false = refl

-- After a recovery every orphan is unknown, and the rest is as it was.
pub lookup-recovered :
    (executions : Dict CommandExecution) (k : String)
    → lookup (set_unknown executions (orphan_ids executions)) k
      ≡ unknown_if (is_orphan_at executions k) (lookup executions k)
lookup-recovered executions k =
    lookup-set_unknown (orphan_ids executions) executions k
    ∙ elim (Option-cases (lookup executions k)) [
      | inl gone ↦ rw gone (
          unknown_if-none (contains (orphan_ids executions) k)
          ∙ sym (unknown_if-none (is_orphan_at executions k)))
      | inr (e, has) ↦
          ap (λ b. unknown_if b (lookup executions k))
            (ground (
              arith,
              contains-keep_if (is_orphan_at executions) (keys executions) k,
              contains-keys executions k e has,
            ))
    ]
