-- ===== src/Django/Find.antt =====
-- Reading one row of a table of lists by its key.
use mathlib.Core.Option.{some-injective}
use inventra.Prelude.{
  IsDistinct, ◌++◌, refl, ==_refl, false, ℕ, ◌≡◌, Bool, true, none, some, Option, List, [], ◌∷◌,
  arith, ◌==◌, if◌then◌else◌, keep, All, Bool-cases, inl, inr, subst,
}
use inventra.Django.Table.{every}

module _ {R : Type 0} where
  unfoldable pub find : (R → ℕ) → ℕ → List R → Option R
  find pk k [] = none
  find pk k (r ∷ t) = if pk r == k then some r else find pk k t

  pub pk-find : (pk : R → ℕ) (k : ℕ) (t : List R) (r : R) → find pk k t ≡ some r → pk r ≡ k
  unfolding find
  pk-find pk k [] r h = cc
  pk-find pk k (s ∷ t) r h = ground (arith, pk-find pk k t r)

  pub find-keep :
      (pk : R → ℕ) (p : R → Bool) (k : ℕ) (t : List R) (r : R)
      → find pk k (keep p t) ≡ some r
      → p r ≡ true
  unfolding find
  find-keep pk p k [] r h = cc
  find-keep pk p k (s ∷ t) r h = ground (arith, find-keep pk p k t r)

  pub find-keep_of :
      (pk : R → ℕ) (p : R → Bool) (k : ℕ) (t : List R) (r : R)
      → find pk k t ≡ some r
      → p r ≡ true
      → find pk k (keep p t) ≡ some r
  unfolding find
  find-keep_of pk p k [] r h e = cc
  find-keep_of pk p k (s ∷ t) r h e = ground (arith, find-keep_of pk p k t r)

  -- what holds of all rows holds of the one that is found in a selection
  find-All :
      (pk : R → ℕ) (P : R → Type 0) (p : R → Bool) (k : ℕ) (t : List R) (r : R)
      → All P t
      → find pk k (keep p t) ≡ some r
      → P r
  unfolding find
  find-All pk P p k [] r a h = cc
  find-All pk P p k (s ∷ t) r a h = elim (Bool-cases (p s)) [
    | inr out ↦ find-All pk P p k t r a.1 (rw out at h)
    | inl kept ↦ elim (Bool-cases (pk s == k)) [
      | inl here ↦ subst P (some-injective s r (rw (kept, here) at h)) a.0
      | inr there ↦ find-All pk P p k t r a.1 (rw (kept, there) at h)
    ]
  ]

  pub find-keep_keyed :
      (pk : R → ℕ) (p : R → Bool) (k : ℕ) (t : List R) (r : R)
      → All (λ s. find pk (pk s) t ≡ some s) t
      → find pk k (keep p t) ≡ some r
      → find pk k t ≡ some r
  find-keep_keyed pk p k t r keyed h =
      let key : pk r ≡ k = pk-find pk k (keep p t) r h in
      rw (← key) (find-All pk (λ s. find pk (pk s) t ≡ some s) p k t r keyed h)

  pub find-cons :
      (pk : R → ℕ) (r : R) (t : List R) (k : ℕ)
      → find pk (pk r) t ≡ none
      → find pk k (r ∷ t) ≡ (if k == pk r then some r else find pk k t)
  unfolding find
  find-cons pk r t k h = ground arith

  pub find-every :
      (pk : R → ℕ) (p : R → Bool) (k : ℕ) (t : List R) (r : R)
      → every p t ≡ true
      → find pk k t ≡ some r
      → p r ≡ true
  unfolding find
  find-every pk p k [] r all h = cc
  find-every pk p k (s ∷ t) r all h = ground (arith, find-every pk p k t r)

  find-later :
      (pk : R → ℕ) (r : R) (t xs : List R)
      → All (λ x. (pk x == pk r) ≡ false) xs
      → All (λ x. find pk (pk x) t ≡ some x) xs
      → All (λ x. find pk (pk x) (r ∷ t) ≡ some x) xs
  unfolding find
  find-later pk r t [] ne h = tt
  find-later pk r t (x ∷ xs) ne h = (ground (arith, ne.0, h.0), find-later pk r t xs ne.1 h.1)

  -- each of the rows in front is found by its key
  pub find-append :
      (pk : R → ℕ) (rs t : List R)
      → IsDistinct pk rs
      → All (λ r. find pk (pk r) t ≡ none) rs
      → All (λ r. find pk (pk r) (rs ++ t) ≡ some r) rs
  unfolding find
  find-append pk [] t apart free = tt
  find-append pk (r ∷ rs) t apart free = (
    rw (==_refl (pk r)) refl,
    find-later pk r (rs ++ t) rs apart.0 (find-append pk rs t apart.1 free.1),
  )
