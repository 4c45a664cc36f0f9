-- ===== src/Reports/Views.antt =====
-- The `get` methods of apps/reports/views.py, below `@cached_response`. The value of
-- `timezone.now()` and the dates that a report repeats are left out of it.
use inventra.Prelude.{
  ℕ, Bool, true, false, ◌&&◌, Option, List, [], ◌∷◌, length, reverse, sum_by, keep, ◌==◌,
}
use inventra.Prelude.Int.{ℤ, pos, ◌+ℤ◌, ◌*ℤ◌, ltb_ℤ, leb_ℤ}
use inventra.Accounts.Models.{User}
use inventra.Catalog.Models.{Category, Supplier, Product}
use inventra.Inventory.Models.{
  PurchaseOrder, PurchaseOrderItem, PurchaseOrderStatus, SalesOrder, SalesOrderItem,
  SalesOrderStatus, InventoryTransaction, TransactionType, purchase, sale, return, damage,
}
use inventra.Inventory.Requests.{Query, filter_date_range}
use inventra.Session.{Db}
use inventra.Django.Table.{Table}
use inventra.Django.Env.{Env}

pub record Dashboard : Type 0 where
  pub total_products : ℕ
  pub total_categories : ℕ
  pub total_suppliers : ℕ
  pub total_users : ℕ
  pub total_purchases : ℕ
  pub total_sales : ℕ
  pub low_stock_products : ℕ
  pub out_of_stock_products : ℕ

pub record PurchaseRow : Type 0 where
  pub id : ℕ
  pub supplier : ℕ
  pub status : PurchaseOrderStatus
  pub created_at : ℕ
  pub total_cost : ℤ

pub record PurchaseReport : Type 0 where
  pub total_orders : ℕ
  pub total_cost : ℤ
  pub items : List PurchaseRow

pub record SalesRow : Type 0 where
  pub id : ℕ
  pub status : SalesOrderStatus
  pub created_at : ℕ
  pub invoice_number : Option ℕ
  pub total_amount : ℤ

pub record SalesReport : Type 0 where
  pub total_orders : ℕ
  pub total_revenue : ℤ
  pub items : List SalesRow

pub record InventoryReport : Type 0 where
  pub total_purchased : ℤ
  pub total_sold : ℤ
  pub total_returned : ℤ
  pub total_damaged : ℤ
  pub transactions : List InventoryTransaction

pub record ProductReport : Type 0 where
  pub total_count : ℕ
  pub items : List Product

abbrev pub is_transaction_type : TransactionType → TransactionType → Bool
is_transaction_type purchase purchase = true
is_transaction_type sale sale = true
is_transaction_type return return = true
is_transaction_type damage damage = true
is_transaction_type _ _ = false

-- the loop of the two order reports: the rows, and the running total after the last order
unfoldable pub add_orders : {R Row : Type 0} → (R → ℤ) → (R → ℤ → Row) → List R → ℤ → List Row × ℤ
add_orders order_total row [] total = ([], total)
add_orders order_total row (order ∷ orders) total =
    let (items, total') = add_orders order_total row orders (total +ℤ order_total order) in
    (row order (order_total order) ∷ items, total')

-- the rows of a report: those in the range of dates, `order_by("-created_at")`
unfoldable pub in_range :
    {R S : Type 0} {pk : R → ℕ} → Table R pk → (R → ℕ) → Query S → List R → List R
unfolding filter_date_range
in_range table created_at q rows =
    reverse (table.order_by created_at (filter_date_range table created_at q rows))

-- `sum(t.quantity for t in transactions if t.transaction_type == ...)`
unfoldable pub quantity_of : TransactionType → List InventoryTransaction → ℤ
quantity_of transaction_type transactions =
    sum_by (λ (t : InventoryTransaction). t.quantity)
      (keep (λ (t : InventoryTransaction). is_transaction_type t.transaction_type transaction_type)
        transactions)

module _ (env : Env) where
  -- `DashboardView.get`
  unfoldable pub dashboard : Db → Dashboard
  dashboard db =
      let active_products = env.orm.products.filter (λ (p : Product). p.is_active) db.products in
      record {
        total_products = length active_products;
        total_categories =
            length (env.orm.categories.filter (λ (c : Category). c.is_active) db.categories);
        total_suppliers =
            length (env.orm.suppliers.filter (λ (s : Supplier). s.is_active) db.suppliers);
        total_users = length (env.orm.users.filter (λ (u : User). u.is_active) db.users);
        total_purchases = length db.purchase_orders;
        total_sales = length db.sales_orders;
        low_stock_products = length (
            env.orm.products.filter
              (λ (p : Product).
                ltb_ℤ (pos 0) p.current_stock && leb_ℤ p.current_stock p.low_stock_threshold)
              active_products);
        out_of_stock_products = length (
            env.orm.products.filter (λ (p : Product). leb_ℤ p.current_stock (pos 0))
              active_products);
      }

  -- `ProductReportView.get`
  unfoldable pub product_report : {S : Type 0} → Query S → Db → ProductReport
  unfolding in_range
  product_report q db =
      let items = in_range env.orm.products (λ (p : Product). p.created_at) q db.products in
      record { total_count = length items; items = items }

  unfoldable pub purchase_total : List PurchaseOrderItem → PurchaseOrder → ℤ
  purchase_total items po =
      sum_by (λ (i : PurchaseOrderItem). i.quantity *ℤ i.unit_cost)
        (env.orm.purchase_order_items.filter (λ (i : PurchaseOrderItem). i.purchase_order == po.id)
          items)

  abbrev pub purchase_row : PurchaseOrder → ℤ → PurchaseRow
  purchase_row po order_total = record {
    id = po.id;
    supplier = po.supplier;
    status = po.status;
    created_at = po.created_at;
    total_cost = order_total;
  }

  -- `PurchaseReportView.get`
  unfoldable pub purchase_report : {S : Type 0} → Query S → Db → PurchaseReport
  unfolding in_range purchase_total add_orders
  purchase_report q db =
      let orders =
        in_range env.orm.purchase_orders (λ (r : PurchaseOrder). r.created_at) q
          db.purchase_orders in
      let (items, total_cost) =
        add_orders (purchase_total db.purchase_order_items) purchase_row orders (pos 0) in
      record { total_orders = length items; total_cost = total_cost; items = items }

  unfoldable pub sales_total : List SalesOrderItem → SalesOrder → ℤ
  sales_total items so =
      sum_by (λ (i : SalesOrderItem). i.quantity *ℤ i.unit_price)
        (env.orm.sales_order_items.filter (λ (i : SalesOrderItem). i.sales_order == so.id) items)

  abbrev pub sales_row : SalesOrder → ℤ → SalesRow
  sales_row so order_total = record {
    id = so.id;
    status = so.status;
    created_at = so.created_at;
    invoice_number = so.invoice_number;
    total_amount = order_total;
  }

  -- `SalesReportView.get`
  unfoldable pub sales_report : {S : Type 0} → Query S → Db → SalesReport
  unfolding in_range sales_total add_orders
  sales_report q db =
      let orders =
        in_range env.orm.sales_orders (λ (r : SalesOrder). r.created_at) q db.sales_orders in
      let (items, total_revenue) =
        add_orders (sales_total db.sales_order_items) sales_row orders (pos 0) in
      record { total_orders = length items; total_revenue = total_revenue; items = items }

  -- `InventoryReportView.get`
  unfoldable pub inventory_report : {S : Type 0} → Query S → Db → InventoryReport
  unfolding in_range quantity_of
  inventory_report q db =
      let transactions =
        in_range env.orm.transactions (λ (t : InventoryTransaction). t.created_at) q
          db.transactions in
      record {
        total_purchased = quantity_of purchase transactions;
        total_sold = quantity_of sale transactions;
        total_returned = quantity_of return transactions;
        total_damaged = quantity_of damage transactions;
        transactions = transactions;
      }
