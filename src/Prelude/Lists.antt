-- ===== src/Prelude/Lists.antt =====
-- Lists measured by native numbers, sums of a weight, and predicates by recursion.
use inventra.Prelude.Tests.{if◌then◌else◌, ◌==◌}
use inventra.Prelude.Int.{ℤ, pos, ◌+ℤ◌, +ℤ_assoc, +ℤ_comm, +ℤ_zero, zero-+ℤ}
use Prim.Native.Nat.{ℕ, suc}
use mathlib.Core.Path.{◌≡◌, refl, sym, ap, ◌∙◌}
use mathlib.Core.Bool.{Bool, false}
use mathlib.Core.List.{List, [], ◌∷◌, ◌++◌}
use native.Mathlib.Omega.{arith}

module _ {ℓ} {A : Type ℓ} where
  abbrev pub length : List A → ℕ
  length [] = 0
  length (x ∷ xs) = suc (length xs)

  -- the items that pass a test, as a comprehension with an `if` keeps them
  abbrev pub keep : (A → Bool) → List A → List A
  keep p [] = []
  keep p (x ∷ xs) = if p x then x ∷ keep p xs else keep p xs

  -- `sum(w(x) for x in xs)`
  unfoldable pub sum_by : (A → ℤ) → List A → ℤ
  sum_by w [] = pos 0
  sum_by w (x ∷ xs) = w x +ℤ sum_by w xs

  abbrev pub All {κ} : (A → Type κ) → List A → Type κ
  All P [] = Unit
  All P (x ∷ xs) = P x × All P xs

  pub sum_by-nil : (w : A → ℤ) → sum_by w [] ≡ pos 0
  unfolding sum_by
  sum_by-nil w = refl

  pub sum_by-cons : (w : A → ℤ) (x : A) (xs : List A) → sum_by w (x ∷ xs) ≡ w x +ℤ sum_by w xs
  unfolding sum_by
  sum_by-cons w x xs = refl

  pub sum_by-append :
      (w : A → ℤ) (xs ys : List A) → sum_by w (xs ++ ys) ≡ sum_by w xs +ℤ sum_by w ys
  unfolding sum_by
  sum_by-append w [] ys = sym (zero-+ℤ _)
  sum_by-append w (x ∷ xs) ys =
      ap (◌+ℤ◌ (w x)) (sum_by-append w xs ys) ∙ sym (+ℤ_assoc (w x) (sum_by w xs) (sum_by w ys))

  pub sum_by-congr : (v w : A → ℤ) (xs : List A) → ((x : A) → v x ≡ w x) → sum_by v xs ≡ sum_by w xs
  unfolding sum_by
  sum_by-congr v w [] h = refl
  sum_by-congr v w (x ∷ xs) h = cc (h x, sum_by-congr v w xs h)

  pub sum_by-keep :
      (w : A → ℤ) (p : A → Bool) (xs : List A)
      → sum_by w (keep p xs) ≡ sum_by (λ x. if p x then w x else pos 0) xs
  unfolding sum_by
  sum_by-keep w p [] = refl
  sum_by-keep w p (x ∷ xs) = ground (arith, sum_by-keep w p xs, zero-+ℤ (sum_by w (keep p xs)))

  abbrev pub reverse : List A → List A
  reverse [] = []
  reverse (x ∷ xs) = reverse xs ++ x ∷ []

  pub sum_by-reverse : (w : A → ℤ) (xs : List A) → sum_by w (reverse xs) ≡ sum_by w xs
  unfolding sum_by
  sum_by-reverse w [] = refl
  sum_by-reverse w (x ∷ xs) =
      rw (sum_by-append w (reverse xs) (x ∷ []), sum_by-reverse w xs, +ℤ_zero (w x))
        (+ℤ_comm (sum_by w xs) (w x))

abbrev pub Pairwise : {A : Type 0} → (A → A → Type 0) → List A → Type 0
Pairwise P [] = Unit
Pairwise P (x ∷ xs) = All (P x) xs × Pairwise P xs

-- no two items have the same key
abbrev pub IsDistinct : {A : Type 0} → (A → ℕ) → List A → Type 0
IsDistinct key = Pairwise (λ x y. (key y == key x) ≡ false)
