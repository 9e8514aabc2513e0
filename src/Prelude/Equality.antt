-- ===== src/Prelude/Equality.antt =====
-- `===` on the values that the program compares: an interface with one operator.
use Prim.Native.Nat.{ℕ, compare, Ordering}
use Prim.Native.String.{String}
use mathlib.Core.Path.{◌≡◌, refl, sym, ap, ◌∙◌}
use mathlib.Core.Logic.{◌↔◌, ◌≢◌}
use mathlib.Core.Bool.{Bool, true, false, not, ◌&&◌}
use mathlib.Core.Option.{Option, none, some}
use native.Mathlib.Omega.{arith}
use text.Mathlib.Text.{◌==◌ as text_beq}
use text.Mathlib.TextEquality.{eq_iff}

-- A test of equality, and that it decides paths.
pub record Eq {ℓ} (T : Type ℓ) : Type ℓ where
  pub same_as : T → T → Bool
  pub same_as_iff : (x y : T) → (same_as x y ≡ true) ↔ (x ≡ y)

infix 50 ◌!=◌ ◌==◌
-- `a !== b`
abbrev pub ◌!=◌ {ℓ} : {T : Type ℓ} ⦃test : Eq T⦄ → T → T → Bool
◌!=◌ ⦃test⦄ x y = not (test.same_as x y)

-- `a === b`
abbrev pub ◌==◌ {ℓ} : {T : Type ℓ} ⦃test : Eq T⦄ → T → T → Bool
◌==◌ ⦃test⦄ x y = test.same_as x y

module _ {ℓ} {T : Type ℓ} ⦃test : Eq T⦄ where
  pub same_refl : (x : T) → test.same_as x x ≡ true
  same_refl x = (test.same_as_iff x x).1 refl

  pub same_of : (x y : T) → test.same_as x y ≡ true → x ≡ y
  same_of x y h = (test.same_as_iff x y).0 h

  pub differs_iff : (x y : T) → (not (test.same_as x y) ≡ true) ↔ (x ≢ y)
  differs_iff x y = ground (arith, test.same_as_iff x y)

abbrev pub nat_beq : ℕ → ℕ → Bool
nat_beq a b = elim (compare a b) [ Ordering.eq ↦ true | _ ↦ false ]

pub nat_beq_iff : (a b : ℕ) → (nat_beq a b ≡ true) ↔ (a ≡ b)
nat_beq_iff a b = ground arith

instance abbrev pub nat_eq : Eq ℕ
nat_eq = record { same_as = nat_beq; same_as_iff = nat_beq_iff }

instance abbrev pub string_eq : Eq String
string_eq = record { same_as = text_beq; same_as_iff = eq_iff }

abbrev pub bool_beq : Bool → Bool → Bool
bool_beq true b = b
bool_beq false true = false
bool_beq false false = true

pub bool_beq_iff : (a b : Bool) → (bool_beq a b ≡ true) ↔ (a ≡ b)
bool_beq_iff true b = (sym, sym)
bool_beq_iff false true = ground arith
bool_beq_iff false false = ground arith

instance abbrev pub bool_eq : Eq Bool
bool_eq = record { same_as = bool_beq; same_as_iff = bool_beq_iff }

module _ {ℓ} {A : Type ℓ} ⦃e : Eq A⦄ where
  abbrev pub option_beq : Option A → Option A → Bool
  option_beq none none = true
  option_beq none (some b) = false
  option_beq (some a) none = false
  option_beq (some a) (some b) = e.same_as a b

  pub option_beq_iff : (a b : Option A) → (option_beq a b ≡ true) ↔ (a ≡ b)
  option_beq_iff none none = ground arith
  option_beq_iff none (some b) = ground arith
  option_beq_iff (some a) none = ground arith
  option_beq_iff (some a) (some b) = ground (arith, e.same_as_iff a b)

  instance abbrev pub option_eq : Eq (Option A)
  option_eq = record { same_as = option_beq; same_as_iff = option_beq_iff }

-- An enumeration compared by the place of each constructor.
module _ {ℓ} {A : Type ℓ} (index : A → ℕ) (of_index : ℕ → A)
    (inverse : (a : A) → of_index (index a) ≡ a) where
  pub index_iff : (a b : A) → (nat_beq (index a) (index b) ≡ true) ↔ (a ≡ b)
  index_iff a b = (
    λ h. sym (inverse a) ∙ ap of_index ((nat_beq_iff _ _).0 h) ∙ inverse b,
    λ p. (nat_beq_iff _ _).1 (ap index p),
  )

  abbrev pub eq_by_index : Eq A
  eq_by_index = record { same_as = λ a b. nat_beq (index a) (index b); same_as_iff = index_iff }

-- Two values compared together.
module _ {ℓ κ} {A : Type ℓ} {B : Type κ} ⦃e : Eq A⦄ ⦃f : Eq B⦄ where
  abbrev pub pair_beq : A × B → A × B → Bool
  pair_beq (a, b) (c, d) = e.same_as a c && f.same_as b d

  pub pair_beq_iff : (x y : A × B) → (pair_beq x y ≡ true) ↔ (x ≡ y)
  pair_beq_iff (a, b) (c, d) = ground (arith, e.same_as_iff a c, f.same_as_iff b d)

  instance abbrev pub pair_eq : Eq (A × B)
  pair_eq = record { same_as = pair_beq; same_as_iff = pair_beq_iff }
