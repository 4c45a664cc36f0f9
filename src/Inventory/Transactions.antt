-- ===== src/Inventory/Transactions.antt =====
-- `InventoryTransactionViewSet` of apps/inventory/views.py: the rows of the ledger that it lists.
use inventra.Prelude.{
  ℕ, ◌≡◌, refl, sym, ◌∙◌, Bool, true, false, ◌&&◌, Option, none, some, List, ◌==◌, sum_by,
  sum_by-congr, Bool-cases, inl, inr,
}
use inventra.Catalog.Models.{Product}
use inventra.Inventory.Models.{
  TransactionType, purchase, sale, return, damage, InventoryTransaction,
}
use inventra.Inventory.Requests.{Query, filter_date_range}
use inventra.Inventory.Stock.{signed_quantity, contribution, balance}
use inventra.Inventory.Ledger.{IsBalanced}
use inventra.Django.Env.{Env}

-- the `transaction_type` parameter: the text of a type, or another text
pub data TypeFilter : Type 0 where
  of_type : TransactionType → TypeFilter
  no_type : TypeFilter

abbrev pub is_same_type : TransactionType → TransactionType → Bool
is_same_type purchase purchase = true
is_same_type sale sale = true
is_same_type return return = true
is_same_type damage damage = true
is_same_type _ _ = false

-- `InventoryTransactionFilter`
abbrev pub is_listed : Option ℕ → Option TypeFilter → InventoryTransaction → Bool
is_listed product_id transaction_type t =
    elim product_id [ none ↦ true | some k ↦ t.product == k ] && elim transaction_type [
      | none ↦ true
      | some (of_type type) ↦ is_same_type t.transaction_type type
      | some no_type ↦ false
    ]

module _ (env : Env) where
  -- the queryset with the filters of a request
  unfoldable pub get_queryset :
      {S : Type 0}
      → Query S
      → Option ℕ
      → Option TypeFilter
      → List InventoryTransaction
      → List InventoryTransaction
  unfolding filter_date_range
  get_queryset q product_id transaction_type rows =
      env.orm.transactions.filter (is_listed product_id transaction_type)
        (filter_date_range env.orm.transactions (λ (t : InventoryTransaction). t.created_at) q rows)

  -- For a request without dates or type, the signed quantities of the rows that the ledger view
  -- lists for a product sum up to the stock of that product, in a shop whose ledger accounts for
  -- all stock.
  pub get_queryset-stock :
      {S : Type 0} (q : Query S) (k : ℕ) (p : Product) (products : List Product)
      (rows : List InventoryTransaction)
      → q.start_date ≡ none
      → q.end_date ≡ none
      → env.orm.products.get k products ≡ some p
      → IsBalanced env products rows
      → sum_by signed_quantity (get_queryset q (some k) none rows) ≡ p.current_stock
  unfolding get_queryset filter_date_range balance
  get_queryset-stock q k p products rows from to found balanced =
      rw (from, to)
        (env.orm.transactions.sum-filter signed_quantity (is_listed (some k) none) rows
          ∙ sum_by-congr _ (contribution k) rows (λ t. elim (Bool-cases (t.product == k)) [
            | inl mine ↦ rw mine refl
            | inr other ↦ rw other refl
          ])
          ∙ sym (balanced k p found))
