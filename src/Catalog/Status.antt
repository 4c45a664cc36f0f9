-- ===== src/Catalog/Status.antt =====
-- The three values of the filter by stock status, and what a deleted product leaves behind.
use inventra.Prelude.{
  ℕ, Bool, ◌≡◌, refl, ◌∙◌, inl, inr, true, false, Option-cases, Bool-cases, List, [], ◌∷◌, arith,
  sum_by, if◌then◌else◌,
}
use inventra.Prelude.Int.{ℤ, pos, ◌+ℤ◌, leb_ℤ, int_laws, zero-+ℤ, +ℤ_zero}
use inventra.Catalog.Models.{Product}
use inventra.Catalog.Products.{
  out_of_stock, low_stock, in_stock, is_out_of_stock, is_low_on_stock, is_in_stock,
  filter_stock_status, active_products, destroy_product,
}
use inventra.Django.Table.{every}
use inventra.Session.{Session}
use inventra.Django.Env.{Env}

abbrev pub has_threshold : Product → Bool
has_threshold p = leb_ℤ (pos 0) p.low_stock_threshold

-- a weight counts once, in the class of the product
one_class :
    (w : Product → ℤ) (p : Product)
    → has_threshold p ≡ true
    → (if is_out_of_stock p then w p else pos 0)
        +ℤ (if is_low_on_stock p then w p else pos 0)
        +ℤ (if is_in_stock p then w p else pos 0)
      ≡ w p
one_class w p h = elim (Bool-cases (is_out_of_stock p)) [
  | inl out ↦
      let low : is_low_on_stock p ≡ false = ground arith in
      let in_ : is_in_stock p ≡ false = ground arith in
      rw (out, low, in_, +ℤ_zero (w p)) (+ℤ_zero (w p))
  | inr some_left ↦ elim (Bool-cases (is_in_stock p)) [
    | inl in_ ↦
        let low : is_low_on_stock p ≡ false = ground arith in
        rw (some_left, low, in_, zero-+ℤ (pos 0)) (zero-+ℤ (w p))
    | inr below ↦
        let low : is_low_on_stock p ≡ true = ground arith in
        rw (some_left, low, below, zero-+ℤ (w p)) (+ℤ_zero (w p))
  ]
]

add_triples : (a b c d e f : ℤ) → a +ℤ d +ℤ (b +ℤ e) +ℤ (c +ℤ f) ≡ a +ℤ b +ℤ c +ℤ (d +ℤ e +ℤ f)
add_triples a b c d e f = omega int_laws

sum_by-classes :
    (w : Product → ℤ) (products : List Product)
    → every has_threshold products ≡ true
    → sum_by (λ p. if is_out_of_stock p then w p else pos 0) products
        +ℤ sum_by (λ p. if is_low_on_stock p then w p else pos 0) products
        +ℤ sum_by (λ p. if is_in_stock p then w p else pos 0) products
      ≡ sum_by w products
unfolding sum_by
sum_by-classes w [] h = rw (zero-+ℤ (pos 0)) (zero-+ℤ (pos 0))
sum_by-classes w (p ∷ products) h =
    let first : has_threshold p ≡ true = ground arith in
    let rest : every has_threshold products ≡ true = ground arith in
    let out : Product → ℤ = λ q. if is_out_of_stock q then w q else pos 0 in
    let low : Product → ℤ = λ q. if is_low_on_stock q then w q else pos 0 in
    let in_ : Product → ℤ = λ q. if is_in_stock q then w q else pos 0 in
    add_triples (out p) (low p) (in_ p) (sum_by out products) (sum_by low products)
      (sum_by in_ products)
    ∙ cc (one_class w p first, sum_by-classes w products rest)

module _ (env : Env) where
  -- When no product has a negative threshold, the three values of the filter by stock status split
  -- the products: a sum over the products is the sum of the sums over the three selections.
  pub filter_stock_status-partition :
      (w : Product → ℤ) (products : List Product)
      → every has_threshold products ≡ true
      → sum_by w (filter_stock_status env out_of_stock products)
          +ℤ sum_by w (filter_stock_status env low_stock products)
          +ℤ sum_by w (filter_stock_status env in_stock products)
        ≡ sum_by w products
  unfolding filter_stock_status
  filter_stock_status-partition w products h =
      rw
        (
          env.orm.products.sum-filter w is_out_of_stock products,
          env.orm.products.sum-filter w is_low_on_stock products,
          env.orm.products.sum-filter w is_in_stock products,
        )
        (sum_by-classes w products h)

  -- Deleting a product removes no row: a sum over the products, of a weight that does not read
  -- `is_active`, stays what it was, however the call ends.
  pub destroy_product-keeps :
      (w : Product → ℤ) (pk : ℕ) (s : Session)
      → ((p : Product) → w (record p { is_active = false }) ≡ w p)
      → sum_by w ((destroy_product env pk s).1).products ≡ sum_by w s.products
  unfolding destroy_product
  destroy_product-keeps w pk s h =
      elim (Option-cases (env.orm.products.get pk (active_products env s.products))) [
        | inl e ↦ rw e refl
        | inr (p, e) ↦ rw e (env.orm.products.sum-update w p.id _ s.products h)
      ]
