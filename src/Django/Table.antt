-- ===== src/Django/Table.antt =====
-- The object-relational mapper is not part of the repository (it is Django over PostgreSQL), so it
-- is a parameter: for each model a record of the operations that the code calls, and of what the
-- code relies on. A table is given as the list of its rows. No law speaks of the order of the rows,
-- except for `order_by`: what is read from a table is a row, a sum over rows, or a loop over them.
use mathlib.Core.Option
use inventra.Prelude.{
  ℕ, ◌≤◌, ◌≡◌, Bool, true, ◌&&◌, Option, none, some, List, [], ◌∷◌, ◌==◌, if◌then◌else◌, sum_by,
  All, IsDistinct,
}
use inventra.Prelude.Int.{ℤ, pos, ◌+ℤ◌}

-- each row's key is at most every later row's
abbrev pub IsAscending : {R : Type 0} → (R → ℕ) → List R → Type 0
IsAscending key [] = Unit
IsAscending key (r ∷ rs) = All (λ s. key r ≤ key s) rs × IsAscending key rs

abbrev pub every : {A : Type 0} → (A → Bool) → List A → Bool
every p [] = true
every p (x ∷ xs) = p x && every p xs

-- `totals.get(k, 0)` for `totals = {row[0]: row[1] for row in rows}` of rows with distinct keys
abbrev pub total_of : ℕ → List (ℕ × ℤ) → ℤ
total_of k [] = pos 0
total_of k (row ∷ rows) = if row.0 == k then row.1 else total_of k rows

pub record Table (R : Type 0) (pk : R → ℕ) : Type 0 where
  -- `objects.get(pk=k)`, also after `select_for_update()`; `none` is `DoesNotExist`
  pub get : ℕ → List R → Option R
  -- `objects.create(...)`
  pub insert : R → List R → List R
  -- `objects.bulk_create([...])`
  pub bulk_create : List R → List R → List R
  -- `instance.save(update_fields=[...])`: writes those columns of the row with the key
  pub update : ℕ → (R → R) → List R → List R
  -- `objects.filter(...)`
  pub filter : (R → Bool) → List R → List R
  -- `objects.filter(...).delete()`
  pub delete : (R → Bool) → List R → List R
  -- `order_by(...)`, by the order of the keys
  pub order_by : (R → ℕ) → List R → List R
  -- `objects.values(key).annotate(total=Sum(weight))`
  pub group_sum : (R → ℕ) → (R → ℤ) → List R → List (ℕ × ℤ)
  pub pk-get : (k : ℕ) (t : List R) (r : R) → get k t ≡ some r → pk r ≡ k
  -- what is read is one of the rows
  pub get-every :
      (p : R → Bool) (k : ℕ) (t : List R) (r : R) → every p t ≡ true → get k t ≡ some r → p r ≡ true
  -- what is read from a selection is selected
  pub get-filter :
      (p : R → Bool) (k : ℕ) (t : List R) (r : R) → get k (filter p t) ≡ some r → p r ≡ true
  pub get-filter_of :
      (p : R → Bool) (k : ℕ) (t : List R) (r : R)
      → get k t ≡ some r
      → p r ≡ true
      → get k (filter p t) ≡ some r
  -- in a table with unique keys, what is read from a selection is what is read from the table
  pub get-filter_keyed :
      (p : R → Bool) (k : ℕ) (t : List R) (r : R)
      → All (λ s. get (pk s) t ≡ some s) t
      → get k (filter p t) ≡ some r
      → get k t ≡ some r
  pub get-insert :
      (r : R) (t : List R) (k : ℕ)
      → get (pk r) t ≡ none
      → get k (insert r t) ≡ (if k == pk r then some r else get k t)
  -- new rows, with different keys that no row of the table has
  pub get-bulk_create :
      (rs t : List R)
      → IsDistinct pk rs
      → All (λ r. get (pk r) t ≡ none) rs
      → All (λ r. get (pk r) (bulk_create rs t) ≡ some r) rs
  pub get-update :
      (j : ℕ) (f : R → R) (t : List R) (k : ℕ)
      → ((r : R) → pk (f r) ≡ pk r)
      → get k (update j f t) ≡ (if k == j then Option.map f (get k t) else get k t)
  pub sum-insert : (w : R → ℤ) (r : R) (t : List R) → sum_by w (insert r t) ≡ w r +ℤ sum_by w t
  pub sum-bulk_create :
      (w : R → ℤ) (rs t : List R) → sum_by w (bulk_create rs t) ≡ sum_by w rs +ℤ sum_by w t
  pub sum-update :
      (w : R → ℤ) (j : ℕ) (f : R → R) (t : List R)
      → ((r : R) → w (f r) ≡ w r)
      → sum_by w (update j f t) ≡ sum_by w t
  pub sum-filter :
      (w : R → ℤ) (p : R → Bool) (t : List R)
      → sum_by w (filter p t) ≡ sum_by (λ r. if p r then w r else pos 0) t
  pub sum-delete :
      (w : R → ℤ) (p : R → Bool) (t : List R)
      → sum_by w (delete p t) ≡ sum_by (λ r. if p r then pos 0 else w r) t
  pub sum-order_by : (w : R → ℤ) (key : R → ℕ) (t : List R) → sum_by w (order_by key t) ≡ sum_by w t
  pub order_by-IsAscending : (key : R → ℕ) (t : List R) → IsAscending key (order_by key t)
  pub total_of-group_sum :
      (key : R → ℕ) (w : R → ℤ) (t : List R) (k : ℕ)
      → total_of k (group_sum key w t) ≡ sum_by (λ r. if key r == k then w r else pos 0) t
