-- ===== src/Catalog/StockEdits.antt =====
-- What an update of a product does to the stock ledger. `current_stock` is a writable field of the
-- serializer, and the instance is read without a lock and saved with all its columns.
use inventra.Prelude.{
  ℕ, ◌≡◌, ◌≢◌, refl, sym, ap, ◌∙◌, inl, inr, Bool, true, Bool-cases, Option-cases, none, some, List,
  ◌==◌, ==_refl, eq_of_==, if◌then◌else◌,
}
use mathlib.Core.Option
use mathlib.Core.Option.{some-injective}
use inventra.Prelude.Int.{ℤ}
use inventra.Catalog.Models.{Product}
use inventra.Catalog.Products.{active_products}
use inventra.Catalog.Editing.{ProductInput, is_valid, assigned, save_product, update_product}
use inventra.Inventory.Stock.{balance}
use inventra.Inventory.Ledger.{IsBalanced}
use inventra.Inventory.Tasks.Reconcile.{IsKeyed}
use inventra.Http.{respond, product_data}
use inventra.Session.{Session, ok}
use inventra.Django.Env.{Env}

module _ (env : Env) where
  get-save_product :
      (p : Product) (products : List Product) (k : ℕ)
      → env.orm.products.get k (env.orm.products.update p.id (λ r. record p { id = r.id }) products)
        ≡ (if k == p.id
            then Option.map (λ r. record p { id = r.id }) (env.orm.products.get k products)
            else env.orm.products.get k products)
  get-save_product p products k =
      env.orm.products.get-update p.id (λ r. record p { id = r.id }) products k (λ r. refl)

  -- Whatever a stock is, it becomes the instance's when the instance is saved.
  get-save_product_self :
      (p q : Product) (products : List Product) (pk : ℕ)
      → env.orm.products.get pk products ≡ some q
      → p.id ≡ q.id
      → (r : Product) × (env.orm.products.get pk
            (env.orm.products.update p.id (λ r. record p { id = r.id }) products)
          ≡ some r)
        × (r.current_stock ≡ p.current_stock)
  get-save_product_self p q products pk e same =
      let key : q.id ≡ pk = env.orm.products.pk-get pk products q e in
      let here : (pk == p.id) ≡ true = ap (◌==◌ pk) (same ∙ key) ∙ ==_refl pk in
      (record p { id = q.id }, get-save_product p products pk ∙ rw (here, e) refl, refl)

  -- Let the request be valid and change the stock of a product that is shown, in a shop whose
  -- ledger accounts for all stock. Then the update succeeds, and the ledger no longer does.
  pub update_product-unbalances :
      (partial : Bool) (pk : ℕ) (input : ProductInput) (p : Product) (v : ℤ) (s : Session)
      → env.orm.products.get pk s.products ≡ some p
      → p.is_active ≡ true
      → is_valid env partial (some p.id) input s.db ≡ true
      → input.current_stock ≡ some v
      → v ≢ p.current_stock
      → IsBalanced env s.products s.transactions
      → (t : Session) × (update_product env partial pk input s
          ≡ (ok (respond 200 (product_data (assigned env input s.now p))), t))
        × ¬ IsBalanced env t.products t.transactions
  unfolding update_product save_product active_products
  update_product-unbalances partial pk input p v s found active valid stock other balanced =
      let shown : env.orm.products.get pk (active_products env s.products) ≡ some p =
        env.orm.products.get-filter_of (λ q. q.is_active) pk s.products p found active in
      let q : Product = assigned env input s.now p in
      let (r, there, same) = get-save_product_self q p s.products pk found refl in
      (
        record s {
          db = record s.db {
            products = env.orm.products.update q.id (λ r. record q { id = r.id }) s.products;
          };
        },
        rw (shown, valid) refl,
        λ h.
            let now_v : r.current_stock ≡ v = same ∙ rw stock refl in
            other (sym now_v ∙ (h pk r there ∙ sym (balanced pk p found))),
      )

  -- An update that does not name the stock keeps the ledger, however it ends, in a table with
  -- unique primary keys.
  pub update_product-IsBalanced :
      (partial : Bool) (pk : ℕ) (input : ProductInput) (s : Session)
      → input.current_stock ≡ none
      → IsKeyed env s.products
      → IsBalanced env s.products s.transactions
      → let (_, t) = update_product env partial pk input s in
        IsBalanced env t.products t.transactions
  unfolding update_product save_product active_products
  update_product-IsBalanced partial pk input s silent keyed h =
      elim (Option-cases (env.orm.products.get pk (active_products env s.products))) [
        | inl e ↦ rw e h
        | inr (p, e) ↦ elim (Bool-cases (is_valid env partial (some p.id) input s.db)) [
          | inr bad ↦ rw (e, bad) h
          | inl good ↦ rw (e, good) (kept p e)
        ]
      ]
    where
      kept :
          (p : Product)
          → env.orm.products.get pk (active_products env s.products) ≡ some p
          → IsBalanced env
              (env.orm.products.update p.id
                (λ r. record (assigned env input s.now p) { id = r.id })
                s.products)
              s.transactions
      kept p e k r there =
          let at : env.orm.products.get pk s.products ≡ some p =
            env.orm.products.get-filter_keyed (λ q. q.is_active) pk s.products p keyed e in
          let q : Product = assigned env input s.now p in
          let stock : q.current_stock ≡ p.current_stock = rw silent refl in
          let after : List Product =
            env.orm.products.update q.id (λ r. record q { id = r.id }) s.products in
          elim (Bool-cases (k == p.id)) [
            | inl here ↦
                let key : k ≡ pk =
                  eq_of_== k p.id here ∙ env.orm.products.pk-get pk s.products p at in
                let (r', there', same) = get-save_product_self q p s.products pk at refl in
                let r_is : some r ≡ some r' =
                  sym there ∙ (ap (λ j. env.orm.products.get j after) key ∙ there') in
                ap (λ x. x.current_stock) (some-injective r r' r_is)
                ∙ (same ∙ (stock ∙ (h pk p at ∙ ap (λ j. balance j s.transactions) (sym key))))
            | inr away ↦
                let before : env.orm.products.get k s.products ≡ some r =
                  sym (get-save_product q s.products k ∙ rw away refl) ∙ there in
                h k r before
          ]
