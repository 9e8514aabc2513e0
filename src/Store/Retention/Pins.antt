-- ===== src/Store/Retention/Pins.antt =====
-- What the retained pins cover: `readCommandExecutionPinRetentionReferences`,
-- apps/bridge/src/state-store/command-transitions.ts.
use mathlib.Core.Path.{subst}
use ariava.Prelude.{
  ℕ, ◌≤◌, String, ◌≡◌, refl, ap, ◌∙◌, true, Option, none, some, List, [], ◌∷◌, ◌==◌, All, ok,
  >>=-eq-ok, ok-injective, string_eq, nat_eq, arith, eq_iff, Bool-cases, inl, inr,
}
use ariava.Prelude.Dict.{Dict, lookup, lookup-insert, lookup-insert_self}
use ariava.Store.State.{Timestamp, CommandExecution}
use ariava.Store.Retention.{
  Category, is_category, References, retention_category, retained_through, later_timestamp, pin_key,
  refer, pin_references,
}

-- The pin is retained in the category, at least to the time.
abbrev pub CoversPin : References → Category → String → Timestamp → Type 0
CoversPin references category key through =
    (t : Timestamp) × (lookup (references category) key ≡ some t) × (through ≤ t)

same_key : (d : Dict Timestamp) (i j : String) → i ≡ j → lookup d i ≡ lookup d j
same_key d i j same = ap (lookup d) same

same_category : (c : Category) → is_category c c ≡ true
same_category c = ground arith

later-bound : (o : Option Timestamp) (t : Timestamp) → t ≤ later_timestamp o t
later-bound none t = omega arith
later-bound (some u) t = ground arith

module _ (decimal : ℕ → String) where
  refer-keeps :
      (references : References) (category c : Category) (key k : String) (through t : Timestamp)
      → CoversPin references c k t
      → CoversPin (refer decimal references category key through) c k t
  refer-keeps references category c key k through t (u, has, later) =
      elim (Bool-cases (is_category category c)) [
        | inl here ↦ elim (Bool-cases (key == k)) [
          | inl same ↦
              let stored = lookup (references c) key in
              let found : lookup (references c) key ≡ some u =
                same_key (references c) key k ((eq_iff key k).0 same) ∙ has in
              (
                later_timestamp stored through,
                rw (refer, here)
                    (lookup-insert (references c) key (later_timestamp stored through) k
                      ∙ rw same refl),
                rw found (ground arith),
              )
          | inr other ↦
              (u, rw (refer, here) (lookup-insert (references c) key _ k ∙ rw other has), later)
        ]
        | inr elsewhere ↦ (u, rw (refer, elsewhere) has, later)
      ]

  refer-covers :
      (references : References) (category : Category) (key : String) (through : Timestamp)
      → CoversPin (refer decimal references category key through) category key through
  refer-covers references category key through =
      let stored = lookup (references category) key in
      (
        later_timestamp stored through,
        rw (refer, same_category category)
            (lookup-insert_self (references category) key (later_timestamp stored through)),
        later-bound stored through,
      )

  pins_keep :
      (es : List CommandExecution) (references out : References) (c : Category) (k : String)
      (t : Timestamp)
      → pin_references decimal references es ≡ ok out
      → CoversPin references c k t
      → CoversPin out c k t
  unfolding pin_references
  pins_keep [] references out c k t h covers =
      subst (λ x. CoversPin x c k t) (ok-injective h) covers
  pins_keep (e ∷ es) references out c k t h covers =
      let (through, kept, rest) = >>=-eq-ok (retained_through e) _ h in
      pins_keep es _ out c k t rest (
        refer-keeps references (retention_category e) c (pin_key decimal e.pin_reference) k through
          t covers)

  -- The execution's pin is retained in its category as long as the execution is.
  abbrev pub PinRetained : References → CommandExecution → Type 0
  PinRetained out e =
      (through : Timestamp) × (retained_through e ≡ ok through)
      × CoversPin out (retention_category e) (pin_key decimal e.pin_reference) through

  pins_retained :
      (es : List CommandExecution) (references out : References)
      → pin_references decimal references es ≡ ok out
      → All (PinRetained out) es
  unfolding pin_references
  pins_retained [] references out h = tt
  pins_retained (e ∷ es) references out h =
      let (through, kept, rest) = >>=-eq-ok (retained_through e) _ h in
      let key = pin_key decimal e.pin_reference in
      (
        (
          through,
          kept,
          pins_keep es _ out (retention_category e) key through rest
              (refer-covers references (retention_category e) key through),
        ),
        pins_retained es _ out rest,
      )

-- The retention references that are computed of the stored executions keep each one's pin, in the
-- category of its state, at least as long as the execution itself is kept.
pub pin_references-PinRetained :
    (decimal : ℕ → String) (es : List CommandExecution) (references out : References)
    → pin_references decimal references es ≡ ok out
    → All (PinRetained decimal out) es
pin_references-PinRetained = pins_retained
