-- ===== src/Inventory/Stock/Cases.antt =====
-- How each of the shared writes ends: it raises and leaves the state alone, or it returns in a
-- state that is written out.
use inventra.Prelude.{ℕ, ◌+◌, ◌≡◌, ◌⊎◌, inl, inr, Bool-cases, Option-cases, Option, some, String}
use inventra.Prelude.Int.{ℤ}
use inventra.Accounts.Models.{User}
use inventra.Catalog.Models.{Product}
use inventra.Inventory.Models.{TransactionType, InventoryTransaction}
use inventra.Session.{Session, ok, raised, does_not_exist, data_error}
use inventra.Django.Env.{Env}
use inventra.Inventory.Stock.{
  is_integer_field, set_stock, get_product, save_stock, create_transaction,
}

module _ (env : Env) where
  abbrev pub saved : Product → Session → Session
  saved product s = record s {
    db = record s.db {
      products = env.orm.products.update product.id (set_stock product.current_stock) s.products;
    };
  }

  abbrev pub transaction_row :
      Product
      → ℤ
      → TransactionType
      → Option ℕ
      → Option String
      → User
      → Session
      → InventoryTransaction
  transaction_row product quantity transaction_type reference_id reason user s = record {
    id = env.uuid4 s.draws;
    product = product.id;
    quantity = quantity;
    transaction_type = transaction_type;
    reference_id = reference_id;
    reason = reason;
    created_at = s.now;
    created_by = some user.id;
  }

  abbrev pub recorded : InventoryTransaction → Session → Session
  recorded row s = record s {
    db = record s.db { transactions = env.orm.transactions.insert row s.transactions };
    draws = s.draws + 1;
  }

  pub get_product-cases :
      (pk : ℕ) (s : Session)
      → (get_product env pk s ≡ (raised does_not_exist, s))
        ⊎ ((p : Product) × (env.orm.products.get pk s.products ≡ some p)
            × (get_product env pk s ≡ (ok p, s)))
  unfolding get_product
  get_product-cases pk s = elim (Option-cases (env.orm.products.get pk s.products)) [
    | inl e ↦ inl (rw e)
    | inr (p, e) ↦ inr (p, e, rw e)
  ]

  pub save_stock-cases :
      (product : Product) (s : Session)
      → (save_stock env product s ≡ (raised data_error, s))
        ⊎ (save_stock env product s ≡ (ok tt, saved product s))
  unfolding save_stock
  save_stock-cases product s = elim (Bool-cases (is_integer_field product.current_stock)) [
    | inl e ↦ inr (rw e)
    | inr e ↦ inl (rw e)
  ]

  pub create_transaction-cases :
      (product : Product) (quantity : ℤ) (transaction_type : TransactionType)
      (reference_id : Option ℕ) (reason : Option String) (user : User) (s : Session)
      → let m = create_transaction env product quantity transaction_type reference_id reason user in
        let row = transaction_row product quantity transaction_type reference_id reason user s in
        (m s ≡ (raised data_error, s)) ⊎ (m s ≡ (ok row, recorded row s))
  unfolding create_transaction
  create_transaction-cases product quantity transaction_type reference_id reason user s =
      elim (Bool-cases (is_integer_field quantity)) [ inl e ↦ inr (rw e) | inr e ↦ inl (rw e) ]
