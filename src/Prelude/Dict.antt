-- ===== src/Prelude/Dict.antt =====
-- A JavaScript object used as a map: an association list in insertion order. A write to a key that
-- is there keeps its place, a new key goes last. (Keys that spell array indices, which an object
-- would enumerate first, do not occur: keys are identifiers with a prefix or a separator.)
use Prim.Native.Nat.{ℕ, zero, suc, ◌≤◌}
use Prim.Native.String.{String}
use mathlib.Core.Path.{◌≡◌, refl, ap}
use mathlib.Core.Logic.{◌⊎◌}
use mathlib.Core.Bool.{Bool, true, false, ◌||◌}
use mathlib.Core.List.{List, [], ◌∷◌}
use mathlib.Core.Option.{Option, none, some}
use native.Mathlib.Omega.{arith}
use text.Mathlib.Text.{◌==◌}
use text.Mathlib.TextEquality.{eq_iff}
use ariava.Prelude.Tests.{if◌then◌else◌}
use ariava.Prelude.Lists.{any, length, drop}

abbrev pub Dict {ℓ} : Type ℓ → Type ℓ
Dict V = List (String × V)

module _ {ℓ} {V : Type ℓ} where
  -- `d[k]`
  unfoldable pub lookup : Dict V → String → Option V
  lookup [] k = none
  lookup ((j, v) ∷ d) k = if j == k then some v else lookup d k

  -- `d[k] = v`, `{ ...d, [k]: v }`
  unfoldable pub insert : Dict V → String → V → Dict V
  insert [] k v = (k, v) ∷ []
  insert ((j, w) ∷ d) k v = if j == k then (j, v) ∷ d else (j, w) ∷ insert d k v

  -- `delete d[k]`
  unfoldable pub remove : Dict V → String → Dict V
  remove [] k = []
  remove ((j, w) ∷ d) k = if j == k then remove d k else (j, w) ∷ remove d k

  pub lookup-insert :
      (d : Dict V) (k : String) (v : V) (j : String)
      → lookup (insert d k v) j ≡ (if k == j then some v else lookup d j)
  unfolding lookup insert
  lookup-insert [] k v j = refl
  lookup-insert ((i, w) ∷ d) k v j =
      ground (arith, eq_iff k j, eq_iff i k, eq_iff i j, lookup-insert d k v j)

  pub lookup-remove :
      (d : Dict V) (k j : String) → lookup (remove d k) j ≡ (if k == j then none else lookup d j)
  unfolding lookup remove
  lookup-remove [] k j = ground arith
  lookup-remove ((i, w) ∷ d) k j =
      ground (arith, eq_iff k j, eq_iff i k, eq_iff i j, lookup-remove d k j)

abbrev pub keys {ℓ} : {V : Type ℓ} → Dict V → List String
keys [] = []
keys ((k, v) ∷ d) = k ∷ keys d

-- `Object.values(d)`
abbrev pub values {ℓ} : {V : Type ℓ} → Dict V → List V
values [] = []
values ((k, v) ∷ d) = v ∷ values d

-- `k in d`
abbrev pub has_key {ℓ} : {V : Type ℓ} → Dict V → String → Bool
has_key d k = elim (lookup d k) [ none ↦ false | some v ↦ true ]

-- Every entry of the map, as a loop over `Object.entries` meets them.
abbrev pub Every {ℓ κ} : {V : Type ℓ} → Dict V → (String → V → Type κ) → Type (ℓ ⊔ κ)
Every {V} d P = (k : String) (v : V) → lookup d k ≡ some v → P k v

abbrev pub contains : List String → String → Bool
contains [] k = false
contains (j ∷ js) k = j == k || contains js k

pub contains-keys {ℓ} :
    {V : Type ℓ} (d : Dict V) (k : String) (v : V)
    → lookup d k ≡ some v
    → contains (keys d) k ≡ true
unfolding lookup
contains-keys [] k v h = cc
contains-keys ((j, w) ∷ d) k v h = ground (arith, contains-keys d k v)

pub any-values {ℓ} :
    {V : Type ℓ} (d : Dict V) (p : V → Bool) (k : String) (v : V)
    → any p (values d) ≡ false
    → lookup d k ≡ some v
    → p v ≡ false
unfolding lookup
any-values [] p k v h has = cc
any-values ((j, w) ∷ d) p k v h has = ground (arith, any-values d p k v, ap p)

-- What an entry of a changed map was before.
module _ {ℓ} {V : Type ℓ} (d : Dict V) (k j : String) where
  pub lookup-remove_ne : (k == j) ≡ false → lookup (remove d k) j ≡ lookup d j
  lookup-remove_ne other = rw (lookup-remove, other)

  pub lookup-remove-some :
      {v : V} → lookup (remove d k) j ≡ some v → ((k == j) ≡ false) × (lookup d j ≡ some v)
  lookup-remove-some h = ground (arith, lookup-remove d k j)

  pub lookup-insert_ne : (w : V) → (k == j) ≡ false → lookup (insert d k w) j ≡ lookup d j
  lookup-insert_ne w other = rw (lookup-insert, other)

  pub lookup-insert-some :
      {v : V} (w : V)
      → lookup (insert d k w) j ≡ some v
      → ((k ≡ j) × (v ≡ w)) ⊎ (((k == j) ≡ false) × (lookup d j ≡ some v))
  lookup-insert-some w h = ground (arith, lookup-insert d k w j, eq_iff k j)

pub lookup-insert_self {ℓ} :
    {V : Type ℓ} (d : Dict V) (k : String) (v : V) → lookup (insert d k v) k ≡ some v
lookup-insert_self d k v = ground (arith, lookup-insert d k v k, eq_iff k k)

-- A key that is not there goes last, and stays when entries before it are dropped.
module _ {ℓ} {V : Type ℓ} where
  pub length-insert :
      (d : Dict V) (k : String) (v : V) → lookup d k ≡ none → length (insert d k v) ≡ suc (length d)
  unfolding lookup insert
  length-insert [] k v h = refl
  length-insert ((j, w) ∷ d) k v h = ground (arith, length-insert d k v)

  pub lookup-drop-insert :
      (d : Dict V) (k : String) (v : V) (n : ℕ)
      → n ≤ length d
      → lookup d k ≡ none
      → lookup (drop n (insert d k v)) k ≡ some v
  unfolding lookup insert
  lookup-drop-insert d k v zero bound h = lookup-insert_self d k v
  lookup-drop-insert [] k v (suc n) bound h = ground arith
  lookup-drop-insert ((j, w) ∷ d) k v (suc n) bound h = ground (arith, lookup-drop-insert d k v n)
