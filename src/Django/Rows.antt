-- ===== src/Django/Rows.antt =====
-- A table as a plain list of rows, newest first, which has the behaviour that `Table` asks for.
use mathlib.Core.Option
use mathlib.Core.Option.{some-injective}
use inventra.Prelude.{
  ℕ, ◌≤◌, ◌≡◌, refl, sym, ap, ◌∙◌, Bool, not, List, [], ◌∷◌, ◌++◌, arith, leb, ◌==◌, if◌then◌else◌,
  sum_by, sum_by-cons, sum_by-append, sum_by-keep, sum_by-congr, keep, All, Bool-cases, ◌⊎◌, inl,
  inr, map,
}
use inventra.Prelude.Int.{ℤ, pos, ◌+ℤ◌, +ℤ_left_comm, zero-+ℤ}
use inventra.Django.Find.{
  find, pk-find, find-cons, find-every, find-keep, find-keep_of, find-keep_keyed, find-append,
}
use inventra.Django.Table.{Table, IsAscending, total_of}

module _ {R : Type 0} where
  unfoldable pub update_rows : (R → ℕ) → ℕ → (R → R) → List R → List R
  update_rows pk j f [] = []
  update_rows pk j f (r ∷ t) = (if pk r == j then f r else r) ∷ update_rows pk j f t

  unfoldable pub insert_by : (R → ℕ) → R → List R → List R
  insert_by key r [] = r ∷ []
  insert_by key r (s ∷ t) = if leb (key r) (key s) then r ∷ s ∷ t else s ∷ insert_by key r t

  unfoldable pub sort_by : (R → ℕ) → List R → List R
  unfolding insert_by
  sort_by key [] = []
  sort_by key (r ∷ t) = insert_by key r (sort_by key t)

  pub find-update_rows :
      (pk : R → ℕ) (j : ℕ) (f : R → R) (t : List R) (k : ℕ)
      → ((r : R) → pk (f r) ≡ pk r)
      → find pk k (update_rows pk j f t)
        ≡ (if k == j then Option.map f (find pk k t) else find pk k t)
  unfolding find update_rows
  find-update_rows pk j f [] k h = ground arith
  find-update_rows pk j f (r ∷ t) k h = ground (arith, find-update_rows pk j f t k h, h r)

  pub sum_by-update_rows :
      (pk : R → ℕ) (w : R → ℤ) (j : ℕ) (f : R → R) (t : List R)
      → ((r : R) → w (f r) ≡ w r)
      → sum_by w (update_rows pk j f t) ≡ sum_by w t
  unfolding sum_by update_rows
  sum_by-update_rows pk w j f [] h = refl
  sum_by-update_rows pk w j f (r ∷ t) h = ground (arith, sum_by-update_rows pk w j f t h, h r)

  pub sum_by-drop :
      (w : R → ℤ) (p : R → Bool) (t : List R)
      → sum_by w (keep (λ r. not (p r)) t) ≡ sum_by (λ r. if p r then pos 0 else w r) t
  sum_by-drop w p t =
      sum_by-keep w (λ r. not (p r)) t
      ∙ sum_by-congr (λ r. if not (p r) then w r else pos 0) (λ r. if p r then pos 0 else w r) t
          (λ r. ground arith)

  sum_by-insert_by :
      (w : R → ℤ) (key : R → ℕ) (r : R) (t : List R)
      → sum_by w (insert_by key r t) ≡ w r +ℤ sum_by w t
  unfolding sum_by insert_by
  sum_by-insert_by w key r [] = refl
  sum_by-insert_by w key r (s ∷ t) =
      ground (arith, sum_by-insert_by w key r t, +ℤ_left_comm (w s) (w r) (sum_by w t))

  pub sum_by-sort_by :
      (w : R → ℤ) (key : R → ℕ) (t : List R) → sum_by w (sort_by key t) ≡ sum_by w t
  unfolding sum_by sort_by
  sum_by-sort_by w key [] = refl
  sum_by-sort_by w key (r ∷ t) =
      sum_by-insert_by w key r (sort_by key t) ∙ ap (◌+ℤ◌ (w r)) (sum_by-sort_by w key t)

  All-insert_by :
      (P : R → Type 0) (key : R → ℕ) (r : R) (t : List R)
      → P r
      → All P t
      → All P (insert_by key r t)
  unfolding insert_by
  All-insert_by P key r [] p a = (p, tt)
  All-insert_by P key r (s ∷ t) p a = ground (arith, All-insert_by P key r t p a.1)

  All-le_trans :
      (key : R → ℕ) (m n : ℕ) (t : List R) → m ≤ n → All (λ s. n ≤ key s) t → All (λ s. m ≤ key s) t
  All-le_trans key m n [] h a = tt
  All-le_trans key m n (s ∷ t) h a = (omega arith, All-le_trans key m n t h a.1)

  insert_by-IsAscending :
      (key : R → ℕ) (r : R) (t : List R) → IsAscending key t → IsAscending key (insert_by key r t)
  unfolding insert_by
  insert_by-IsAscending key r [] a = (tt, tt)
  insert_by-IsAscending key r (s ∷ t) a = elim (Bool-cases (leb (key r) (key s))) [
    | inl e ↦
        let le : key r ≤ key s = ground arith in
        rw e ((le, All-le_trans key (key r) (key s) t le a.0), a)
    | inr e ↦ rw e (
      All-insert_by (λ q. key s ≤ key q) key r t (ground arith) a.0,
      insert_by-IsAscending key r t a.1,
    )
  ]

  pub sort_by-IsAscending : (key : R → ℕ) (t : List R) → IsAscending key (sort_by key t)
  unfolding sort_by
  sort_by-IsAscending key [] = tt
  sort_by-IsAscending key (r ∷ t) =
      insert_by-IsAscending key r (sort_by key t) (sort_by-IsAscending key t)

  abbrev pub weigh : (R → ℕ) → (R → ℤ) → ℕ → R → ℤ
  weigh key w k r = if key r == k then w r else pos 0

  unfoldable pub group_rows : (R → ℕ) → (R → ℤ) → List R → List (ℕ × ℤ)
  group_rows key w t = map (λ r. (key r, sum_by (weigh key w (key r)) t)) t

  -- a key that stands in the list has its total, and any other has none
  total_of-map :
      (key : R → ℕ) (w : R → ℤ) (f : ℕ → ℤ) (k : ℕ) (t : List R)
      → (total_of k (map (λ r. (key r, f (key r))) t) ≡ f k)
        ⊎ ((total_of k (map (λ r. (key r, f (key r))) t) ≡ pos 0)
            × (sum_by (weigh key w k) t ≡ pos 0))
  unfolding sum_by
  total_of-map key w f k [] = inr (refl, refl)
  total_of-map key w f k (r ∷ t) = elim (Bool-cases (key r == k)) [
    | inl e ↦ inl (ground (arith, e))
    | inr e ↦ elim (total_of-map key w f k t) [
      | inl h ↦ inl (ground (arith, e, h))
      | inr (h, z) ↦ inr (ground (arith, e, h), ground (arith, e, z, zero-+ℤ (pos 0)))
    ]
  ]

  pub total_of-group_rows :
      (key : R → ℕ) (w : R → ℤ) (t : List R) (k : ℕ)
      → total_of k (group_rows key w t) ≡ sum_by (λ r. if key r == k then w r else pos 0) t
  unfolding group_rows
  total_of-group_rows key w t k = elim (total_of-map key w (λ j. sum_by (weigh key w j) t) k t) [
    | inl e ↦ e
    | inr (e, z) ↦ e ∙ sym z
  ]

  -- the table of a model whose primary key is `pk`
  abbrev pub rows : (pk : R → ℕ) → Table R pk
  rows pk = record {
    get = find pk;
    insert = ◌∷◌;
    bulk_create = ◌++◌;
    update = update_rows pk;
    filter = keep;
    delete = λ p. keep (λ r. not (p r));
    order_by = sort_by;
    group_sum = group_rows;
    pk-get = pk-find pk;
    get-every = find-every pk;
    get-filter = find-keep pk;
    get-filter_of = find-keep_of pk;
    get-filter_keyed = find-keep_keyed pk;
    get-insert = find-cons pk;
    get-bulk_create = find-append pk;
    get-update = find-update_rows pk;
    sum-insert = sum_by-cons;
    sum-bulk_create = sum_by-append;
    sum-update = sum_by-update_rows pk;
    sum-filter = sum_by-keep;
    sum-delete = sum_by-drop;
    sum-order_by = sum_by-sort_by;
    order_by-IsAscending = sort_by-IsAscending;
    total_of-group_sum = total_of-group_rows;
  }
