-- ===== src/Reports/Totals.antt =====
-- The totals of the order reports and of the inventory report.
use inventra.Prelude.{ℕ, ◌≡◌, refl, ap, ◌∙◌, sym, List, [], ◌∷◌, sum_by, sum_by-reverse}
use inventra.Prelude.Int.{ℤ, pos, ◌+ℤ◌, ◌-ℤ◌, zero-+ℤ, +ℤ_assoc, int_laws}
use inventra.Inventory.Models.{
  PurchaseOrder, SalesOrder, InventoryTransaction, TransactionType, purchase, sale, return, damage,
}
use inventra.Inventory.Stock.{signed, signed_quantity}
use inventra.Inventory.Requests.{Query, filter_date_range}
use inventra.Reports.Views.{
  PurchaseRow, SalesRow, add_orders, in_range, purchase_total, purchase_row, purchase_report,
  sales_total, sales_row, sales_report, quantity_of, inventory_report,
}
use inventra.Session.{Db}
use inventra.Django.Table.{Table}
use inventra.Django.Env.{Env}

module _ {R Row : Type 0} (order_total : R → ℤ) (row : R → ℤ → Row) where
  add_orders-total :
      (orders : List R) (total : ℤ)
      → (add_orders order_total row orders total).1 ≡ total +ℤ sum_by order_total orders
  unfolding add_orders sum_by
  add_orders-total [] total = sym (omega int_laws)
  add_orders-total (o ∷ orders) total =
      add_orders-total orders (total +ℤ order_total o) ∙ +ℤ_assoc total (order_total o) _

  add_orders-rows :
      (amount : Row → ℤ)
      → ((o : R) (x : ℤ) → amount (row o x) ≡ x)
      → (orders : List R) (total : ℤ)
      → sum_by amount ((add_orders order_total row orders total).0) ≡ sum_by order_total orders
  unfolding add_orders sum_by
  add_orders-rows amount h [] total = refl
  add_orders-rows amount h (o ∷ orders) total =
      cc (h o (order_total o), add_orders-rows amount h orders (total +ℤ order_total o))

-- a sum over the rows of a report does not depend on their order
in_range-sum :
    {R S : Type 0} {pk : R → ℕ} (table : Table R pk) (created_at : R → ℕ) (q : Query S) (w : R → ℤ)
    (rows : List R)
    → sum_by w (in_range table created_at q rows)
      ≡ sum_by w (filter_date_range table created_at q rows)
unfolding in_range
in_range-sum table created_at q w rows =
    sum_by-reverse w (table.order_by created_at (filter_date_range table created_at q rows))
    ∙ table.sum-order_by w created_at (filter_date_range table created_at q rows)

-- purchased and returned, less sold and damaged
abbrev net : List InventoryTransaction → ℤ
net ts =
    quantity_of purchase ts +ℤ quantity_of return ts -ℤ quantity_of sale ts -ℤ quantity_of damage ts

purchase_first : (a p r s d : ℤ) → a +ℤ p +ℤ r -ℤ s -ℤ d ≡ a +ℤ (p +ℤ r -ℤ s -ℤ d)
purchase_first a p r s d = omega int_laws

return_first : (a p r s d : ℤ) → p +ℤ (a +ℤ r) -ℤ s -ℤ d ≡ a +ℤ (p +ℤ r -ℤ s -ℤ d)
return_first a p r s d = omega int_laws

sale_first : (a p r s d : ℤ) → p +ℤ r -ℤ (a +ℤ s) -ℤ d ≡ pos 0 -ℤ a +ℤ (p +ℤ r -ℤ s -ℤ d)
sale_first a p r s d = omega int_laws

damage_first : (a p r s d : ℤ) → p +ℤ r -ℤ s -ℤ (a +ℤ d) ≡ pos 0 -ℤ a +ℤ (p +ℤ r -ℤ s -ℤ d)
damage_first a p r s d = omega int_laws

net-cons :
    (t : InventoryTransaction) (ts : List InventoryTransaction) (kind : TransactionType)
    → t.transaction_type ≡ kind
    → net (t ∷ ts) ≡ signed kind t.quantity +ℤ net ts
unfolding quantity_of sum_by
net-cons t ts purchase e = rw e (purchase_first t.quantity _ _ _ _)
net-cons t ts sale e = rw e (sale_first t.quantity _ _ _ _)
net-cons t ts return e = rw e (return_first t.quantity _ _ _ _)
net-cons t ts damage e = rw e (damage_first t.quantity _ _ _ _)

net-signed : (ts : List InventoryTransaction) → net ts ≡ sum_by signed_quantity ts
unfolding quantity_of sum_by
net-signed [] = omega int_laws
net-signed (t ∷ ts) =
    net-cons t ts t.transaction_type refl ∙ ap (◌+ℤ◌ (signed_quantity t)) (net-signed ts)

module _ (env : Env) {S : Type 0} (q : Query S) (db : Db) where
  -- The total cost of the purchase report is the sum of the totals of its rows, and the sum of the
  -- order totals over the orders in the range of dates, in whatever order they are listed.
  pub purchase_report-total :
      let r = purchase_report env q db in
      (sum_by (λ (x : PurchaseRow). x.total_cost) r.items ≡ r.total_cost)
      × (r.total_cost
          ≡ sum_by (purchase_total env db.purchase_order_items) (
              filter_date_range env.orm.purchase_orders
                (λ (x : PurchaseOrder). x.created_at)
                q
                db.purchase_orders))
  unfolding purchase_report
  purchase_report-total =
      let orders : List PurchaseOrder =
        in_range env.orm.purchase_orders (λ (x : PurchaseOrder). x.created_at) q
          db.purchase_orders in
      let ot = purchase_total env db.purchase_order_items in
      let total =
        add_orders-total ot (purchase_row env) orders (pos 0) ∙ zero-+ℤ (sum_by ot orders) in
      (
        add_orders-rows ot (purchase_row env) (λ x. x.total_cost) (λ o x. refl) orders (pos 0)
            ∙ sym total,
        total ∙ in_range-sum env.orm.purchase_orders (λ x. x.created_at) q ot db.purchase_orders,
      )

  -- The total revenue of the sales report is the sum of the totals of its rows, and the sum of the
  -- order totals over the orders in the range of dates, in whatever order they are listed.
  pub sales_report-total :
      let r = sales_report env q db in
      (sum_by (λ (x : SalesRow). x.total_amount) r.items ≡ r.total_revenue)
      × (r.total_revenue
          ≡ sum_by (sales_total env db.sales_order_items) (
              filter_date_range env.orm.sales_orders
                (λ (x : SalesOrder). x.created_at)
                q
                db.sales_orders))
  unfolding sales_report
  sales_report-total =
      let orders : List SalesOrder =
        in_range env.orm.sales_orders (λ (x : SalesOrder). x.created_at) q db.sales_orders in
      let ot = sales_total env db.sales_order_items in
      let total = add_orders-total ot (sales_row env) orders (pos 0) ∙ zero-+ℤ (sum_by ot orders) in
      (
        add_orders-rows ot (sales_row env) (λ x. x.total_amount) (λ o x. refl) orders (pos 0)
            ∙ sym total,
        total ∙ in_range-sum env.orm.sales_orders (λ x. x.created_at) q ot db.sales_orders,
      )

  -- The four sums of the inventory report account for every ledger row in the range of dates: what
  -- was purchased and returned, less what was sold and damaged, is the sum of the signed
  -- quantities.
  pub inventory_report-total :
      let r = inventory_report env q db in
      r.total_purchased +ℤ r.total_returned -ℤ r.total_sold -ℤ r.total_damaged
      ≡ sum_by signed_quantity (
          filter_date_range env.orm.transactions
            (λ (x : InventoryTransaction). x.created_at)
            q
            db.transactions)
  unfolding inventory_report
  inventory_report-total =
      net-signed (
        in_range env.orm.transactions (λ (x : InventoryTransaction). x.created_at) q
          db.transactions)
      ∙ in_range-sum env.orm.transactions (λ x. x.created_at) q signed_quantity db.transactions
