-- ===== src/Inventory/Returns/Approve.antt =====
-- `approve` of a return and the stock ledger.
use inventra.Prelude.{ℕ, refl, inl, inr, Bool-cases, Option-cases, none, some, arith, ◌⊎◌}
use inventra.Prelude.Int.{◌+ℤ◌}
use inventra.Accounts.Models.{User}
use inventra.Catalog.Models.{Product}
use inventra.Inventory.Models.{InventoryTransaction, TransactionType}
use inventra.Inventory.Stock.{set_stock}
use inventra.Inventory.Stock.Cases.{saved, transaction_row}
use inventra.Inventory.Stock.Rules.{get_product_bind, move_bind}
use inventra.Inventory.Ledger.{IsBalanced, move-IsBalanced}
use inventra.Inventory.Returns.{
  get_return, finish_approve, approve_block, after_approve, approve, is_approved,
}
use inventra.Http.{Response}
use inventra.Session.{Session}
use inventra.Session.Outcome.{Returns}
use inventra.Django.Env.{Env}
use inventra.Django.Atomic.{IsReader, atomic_then}

module _ (env : Env) where
  pub after_approve-IsReader : (r : Response ⊎ ℕ) → IsReader (after_approve env r)
  unfolding after_approve get_return
  after_approve-IsReader (inl response) s = refl
  after_approve-IsReader (inr ret) s = ground arith

  approve_block-IsBalanced :
      (user : User) (pk : ℕ) (s : Session)
      → IsBalanced env s.products s.transactions
      → Returns (λ _ t. IsBalanced env t.products t.transactions) (approve_block env user pk s)
  unfolding approve_block get_return finish_approve
  approve_block-IsBalanced user pk s h = elim (Option-cases (env.orm.returns.get pk s.returns)) [
    | inl e ↦ rw e tt
    | inr (ret, e) ↦ elim (Bool-cases (is_approved ret.status)) [
      | inl is ↦ rw (e, is) h
      | inr is ↦
          rw (e, is)
            (get_product_bind keeps env ret.product _ s λ p found.
              let product : Product = set_stock (p.current_stock +ℤ ret.quantity) p in
              let row : InventoryTransaction =
                transaction_row env product ret.quantity TransactionType.return (some ret.id) none
                  user (saved env product s) in
              move_bind keeps env product ret.quantity TransactionType.return (some ret.id) none
                user (λ _. finish_approve env user ret) s
                (move-IsBalanced env ret.product p product.current_stock row s.products
                  s.transactions found refl refl h))
    ]
  ]
    where
      keeps : Response ⊎ ℕ → Session → Type 0
      keeps _ t = IsBalanced env t.products t.transactions

  -- Approving a return keeps every product's stock equal to the sum of its ledger rows, however the
  -- call ends.
  pub approve-IsBalanced :
      (user : User) (pk : ℕ) (s : Session)
      → IsBalanced env s.products s.transactions
      → let (_, t) = approve env user pk s in IsBalanced env t.products t.transactions
  unfolding approve
  approve-IsBalanced user pk s h =
      atomic_then (λ db. IsBalanced env db.products db.transactions) (after_approve env)
        after_approve-IsReader env (approve_block env user pk) s h
        (approve_block-IsBalanced user pk s h)
