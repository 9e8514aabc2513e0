-- ===== src/Prelude/Sorting.antt =====
-- `array.sort(compare)`, which is stable: an insertion sort. `above x y` is `compare(x, y) > 0`.
use Prim.Native.Nat.{suc}
use mathlib.Core.Path.{◌≡◌, refl, ◌∙◌, ap}
use mathlib.Core.Bool.{Bool, false, ◌||◌, ◌&&◌}
use mathlib.Core.List.{List, [], ◌∷◌}
use native.Mathlib.Omega.{arith}
use ariava.Prelude.Tests.{if◌then◌else◌}
use ariava.Prelude.Lists.{length, any, find}

module _ {ℓ} {A : Type ℓ} (above : A → A → Bool) where
  -- `x` comes before the elements that it is not above, and after the others.
  pub insert_sorted : A → List A → List A
  insert_sorted x [] = x ∷ []
  insert_sorted x (y ∷ ys) =
      let rest = insert_sorted x ys in if above x y then y ∷ rest else x ∷ y ∷ ys

  pub sort_by : List A → List A
  unfolding insert_sorted
  sort_by [] = []
  sort_by (x ∷ xs) = insert_sorted x (sort_by xs)

  length-insert_sorted : (x : A) (ys : List A) → length (insert_sorted x ys) ≡ suc (length ys)
  unfolding insert_sorted
  length-insert_sorted x [] = refl
  length-insert_sorted x (y ∷ ys) = ground (arith, length-insert_sorted x ys)

  pub length-sort_by : (xs : List A) → length (sort_by xs) ≡ length xs
  unfolding sort_by
  length-sort_by [] = refl
  length-sort_by (x ∷ xs) = omega (arith, length-insert_sorted x (sort_by xs), length-sort_by xs)

  any-insert_sorted :
      (p : A → Bool) (x : A) (ys : List A) → any p (insert_sorted x ys) ≡ p x || any p ys
  unfolding insert_sorted
  any-insert_sorted p x [] = refl
  any-insert_sorted p x (y ∷ ys) = ground (arith, any-insert_sorted p x ys)

  -- What some element has, some element of the sorted list has.
  pub any-sort_by : (p : A → Bool) (xs : List A) → any p (sort_by xs) ≡ any p xs
  unfolding sort_by
  any-sort_by p [] = refl
  any-sort_by p (x ∷ xs) =
      any-insert_sorted p x (sort_by xs) ∙ ap (λ b. p x || b) (any-sort_by p xs)

  pub find-insert_sorted :
      (p : A → Bool) (x : A) (ys : List A)
      → (p x && any p ys) ≡ false
      → find p (insert_sorted x ys) ≡ find p (x ∷ ys)
  unfolding insert_sorted
  find-insert_sorted p x [] h = refl
  find-insert_sorted p x (y ∷ ys) h = ground (arith, find-insert_sorted p x ys)

  pub sort_by-cons : (x : A) (xs : List A) → sort_by (x ∷ xs) ≡ insert_sorted x (sort_by xs)
  unfolding sort_by
  sort_by-cons x xs = refl

  pub sort_by-single : (x : A) → sort_by (x ∷ []) ≡ x ∷ []
  unfolding sort_by
  sort_by-single x = refl

  pub sort_by-nil : sort_by [] ≡ []
  unfolding sort_by
  sort_by-nil = refl
