-- ===== src/Tests/Totals.antt =====
-- The reports on the shop of `Tests.Shop`.
use inventra.Prelude.{◌+◌, ◌≤◌, ◌≡◌, refl, some, [], ◌∷◌, sum_by}
use inventra.Prelude.Int.{◌+ℤ◌, ◌-ℤ◌}
use inventra.Inventory.Models.{
  PurchaseOrder, PurchaseOrderStatus, SalesOrder, SalesOrderStatus, completed, InventoryTransaction,
  TransactionType,
}
use inventra.Inventory.Stock.{signed_quantity}
use inventra.Inventory.Requests.{Query, filter_date_range, no_query}
use inventra.Reports.Views.{
  PurchaseRow, SalesRow, dashboard, purchase_total, purchase_report, sales_total, sales_report,
  inventory_report,
}
use inventra.Reports.Totals.{purchase_report-total, sales_report-total, inventory_report-total}
use inventra.Reports.Counts.{dashboard-disjoint}
use inventra.Inventory.Sales.{items_of}
use inventra.Inventory.Invoice.{
  InvoiceLine, Invoice, generate_invoice_pdf, generate_invoice_pdf-total,
}
use inventra.Django.Find.{find}
use inventra.Session.{Session, ok}
use inventra.Tests.Shop.{env, sales_order, shop, lamp}

purchase_report-total_example :
    let q : Query PurchaseOrderStatus = no_query in
    let r = purchase_report env q shop.db in
    (sum_by (λ (x : PurchaseRow). x.total_cost) r.items ≡ r.total_cost)
    × (r.total_cost
        ≡ sum_by (purchase_total env shop.purchase_order_items) (
            filter_date_range env.orm.purchase_orders
              (λ (x : PurchaseOrder). x.created_at)
              q
              shop.purchase_orders))
purchase_report-total_example = purchase_report-total env no_query shop.db

sales_report-total_example :
    let q : Query SalesOrderStatus = no_query in
    let r = sales_report env q shop.db in
    (sum_by (λ (x : SalesRow). x.total_amount) r.items ≡ r.total_revenue)
    × (r.total_revenue
        ≡ sum_by (sales_total env shop.sales_order_items) (
            filter_date_range env.orm.sales_orders
              (λ (x : SalesOrder). x.created_at)
              q
              shop.sales_orders))
sales_report-total_example = sales_report-total env no_query shop.db

inventory_report-total_example :
    let q : Query TransactionType = no_query in
    let r = inventory_report env q shop.db in
    r.total_purchased +ℤ r.total_returned -ℤ r.total_sold -ℤ r.total_damaged
    ≡ sum_by signed_quantity (
        filter_date_range env.orm.transactions
          (λ (x : InventoryTransaction). x.created_at)
          q
          shop.transactions)
inventory_report-total_example = inventory_report-total env no_query shop.db

dashboard-disjoint_example :
    let d = dashboard env shop.db in
    d.low_stock_products + d.out_of_stock_products ≤ d.total_products
dashboard-disjoint_example = dashboard-disjoint env shop.db

abbrev invoiced : SalesOrder
invoiced = record (sales_order 31 completed) { invoice_number = some 7 }

abbrev invoiced_shop : Session
invoiced_shop = record shop { db = record shop.db { sales_orders = invoiced ∷ [] } }

generate_invoice_pdf-total_example :
    (invoice : Invoice) × (generate_invoice_pdf env 31 invoiced_shop ≡ (ok invoice, invoiced_shop))
    × (sum_by (λ (l : InvoiceLine). l.line_total) invoice.lines ≡ invoice.total)
    × (invoice.total ≡ sales_total env invoiced_shop.sales_order_items invoiced)
unfolding find items_of
generate_invoice_pdf-total_example =
    generate_invoice_pdf-total env 31 7 invoiced invoiced_shop refl refl refl ((lamp, refl), tt)
