-- ===== src/Reports/Counts.antt =====
-- The counts of the dashboard.
use inventra.Prelude.{
  suc, ◌+◌, ◌≤◌, ◌≡◌, refl, inl, inr, Bool, false, ◌&&◌, Bool-cases, List, [], ◌∷◌, length, sum_by,
  if◌then◌else◌, arith, ◌∙◌, sym, ap,
}
use inventra.Prelude.Int.{pos, ◌+ℤ◌, ◌≤ℤ◌, ltb_ℤ, leb_ℤ, int_laws}
use inventra.Catalog.Models.{Product}
use inventra.Reports.Views.{dashboard}
use inventra.Session.{Db}
use inventra.Django.Env.{Env}

length-sum : {A : Type 0} (l : List A) → sum_by (λ (x : A). pos 1) l ≡ pos (length l)
unfolding sum_by
length-sum [] = refl
length-sum (x ∷ l) =
    let h = length-sum l in
    let step : pos 1 +ℤ pos (length l) ≡ pos (suc (length l)) = omega int_laws in
    ap (◌+ℤ◌ (pos 1)) h ∙ step

abbrev is_low : Product → Bool
is_low p = ltb_ℤ (pos 0) p.current_stock && leb_ℤ p.current_stock p.low_stock_threshold

abbrev is_out : Product → Bool
is_out p = leb_ℤ p.current_stock (pos 0)

-- no product is both
sum_by-disjoint :
    (l : List Product)
    → sum_by (λ p. if is_low p then pos 1 else pos 0) l
        +ℤ sum_by (λ p. if is_out p then pos 1 else pos 0) l
      ≤ℤ pos (length l)
unfolding sum_by
sum_by-disjoint [] = omega int_laws
sum_by-disjoint (p ∷ l) =
    let h = sum_by-disjoint l in
    elim (Bool-cases (is_out p)) [
      | inl out ↦ let low : is_low p ≡ false = ground arith in rw (low, out) (omega int_laws)
      | inr some_left ↦ elim (Bool-cases (is_low p)) [
        | inl low ↦ rw (low, some_left) (omega int_laws)
        | inr enough ↦ rw (enough, some_left) (omega int_laws)
      ]
    ]

module _ (env : Env) where
  -- The products that the dashboard counts as low on stock and those that it counts as out of stock
  -- are different ones: together they are at most the active products.
  pub dashboard-disjoint :
      (db : Db)
      → let d = dashboard env db in
        d.low_stock_products + d.out_of_stock_products ≤ d.total_products
  unfolding dashboard
  dashboard-disjoint db =
      let active : List Product =
        env.orm.products.filter (λ (p : Product). p.is_active) db.products in
      let low =
        sym (length-sum (env.orm.products.filter is_low active))
        ∙ env.orm.products.sum-filter (λ p. pos 1) is_low active in
      let out =
        sym (length-sum (env.orm.products.filter is_out active))
        ∙ env.orm.products.sum-filter (λ p. pos 1) is_out active in
      let h : pos (length (env.orm.products.filter is_low active))
            +ℤ pos (length (env.orm.products.filter is_out active))
          ≤ℤ pos (length active) =
        rw (low, out) (sum_by-disjoint active) in
      omega int_laws
