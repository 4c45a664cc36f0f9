-- ===== src/Concurrency/Progress.antt =====
-- The handlers of apps/inventory/views.py take their row locks in an order, so they never deadlock.
use inventra.Prelude.{
  ℕ, ◌≤◌, ◌≡◌, ap, inl, inr, Bool-cases, ltb, List, [], ◌∷◌, map, All, arith, Option-cases,
}
use inventra.Session.{Session}
use inventra.Django.Env.{Env}
use inventra.Django.Table.{IsAscending}
use inventra.Inventory.Purchases
use inventra.Inventory.Sales.Complete
use inventra.Inventory.Models.{PurchaseOrderItem, SalesOrderItem}
use inventra.Concurrency.RowLock.{RowLock}
use inventra.Concurrency.Stock.{Event, go}
use inventra.Concurrency.Locks.{
  order, product, Precedes, IsOrdered, Mutation, complete, receive, approve, post, complete_rows,
  receive_rows, approve_rows, post_rows, plan, done, run, start,
}
use inventra.Concurrency.Deadlock.{plans_finish}

-- products by their identifiers may be locked in turn
module _ {R : Type 0} (key : R → ℕ) where
  product-Precedes :
      (k : ℕ) (rs : List R)
      → All (λ s. k ≤ key s) rs
      → All (Precedes (product k)) (map (λ r. product (key r)) rs)
  product-Precedes k [] h = tt
  product-Precedes k (r ∷ rs) h = (
    elim (Bool-cases (ltb k (key r))) [
      | inl less ↦ inl (ground arith)
      | inr same ↦ let le = h.0 in let e : k ≡ key r = ground arith in inr (ap product e)
    ],
    product-Precedes k rs h.1,
  )

  order-Precedes : (k : ℕ) (rs : List R) → All (Precedes (order k)) (map (λ r. product (key r)) rs)
  order-Precedes k [] = tt
  order-Precedes k (r ∷ rs) = (inl (omega arith), order-Precedes k rs)

  products-IsOrdered :
      (rs : List R) → IsAscending key rs → IsOrdered (map (λ r. product (key r)) rs)
  products-IsOrdered [] h = tt
  products-IsOrdered (r ∷ rs) h = (product-Precedes (key r) rs h.0, products-IsOrdered rs h.1)

module _ (env : Env) (s : Session) where
  plan-IsOrdered : (m : Mutation) → IsOrdered (plan env s m)
  unfolding plan complete_rows receive_rows approve_rows post_rows Complete.ordered_items
      Purchases.ordered_items
  plan-IsOrdered (complete pk) = elim (Option-cases (env.orm.sales_orders.get pk s.sales_orders)) [
    | inl e ↦ rw (IsOrdered, e) tt
    | inr (so, e) ↦
        rw (IsOrdered, e)
          (
            order-Precedes (λ (i : SalesOrderItem). i.product) so.id _,
            products-IsOrdered (λ (i : SalesOrderItem). i.product) _
                (env.orm.sales_order_items.order_by-IsAscending _ _),
          )
  ]
  plan-IsOrdered (receive pk) =
      elim (Option-cases (env.orm.purchase_orders.get pk s.purchase_orders)) [
        | inl e ↦ rw (IsOrdered, e) tt
        | inr (po, e) ↦
            rw (IsOrdered, e)
              (
                order-Precedes (λ (i : PurchaseOrderItem). i.product) po.id _,
                products-IsOrdered (λ (i : PurchaseOrderItem). i.product) _
                    (env.orm.purchase_order_items.order_by-IsAscending _ _),
              )
      ]
  plan-IsOrdered (approve pk) = elim (Option-cases (env.orm.returns.get pk s.returns)) [
    | inl e ↦ rw (IsOrdered, e) tt
    | inr (r, e) ↦ rw (IsOrdered, e) ((inl (omega arith), tt), (tt, tt))
  ]
  plan-IsOrdered (post pk) = (tt, tt)

  plans-IsOrdered : (ms : List Mutation) → All IsOrdered (map (plan env s) ms)
  plans-IsOrdered [] = tt
  plans-IsOrdered (m ∷ ms) = (plan-IsOrdered m, plans-IsOrdered ms)

  -- Requests that complete sales orders, receive purchase orders, approve returns and write off
  -- stock never deadlock on the row locks that they take: from every state that some schedule of
  -- their lock queries, ends and failures reaches, further lock queries and ends, none of them a failure, let all of them end.
  pub mutations_finish :
      (row : RowLock) (ms : List Mutation) (es : List Event)
      → let reached = run row es (start row (map (plan env s) ms)) in
        (turns : List ℕ) × ((i : ℕ) → (run row (map go turns) reached).stage i ≡ done)
  mutations_finish row ms es = plans_finish row (map (plan env s) ms) es (plans-IsOrdered ms)
