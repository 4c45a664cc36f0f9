-- ===== src/Inventory/Invoice.antt =====
-- `generate_invoice_pdf` of apps/inventory/tasks.py. The page is the values that are drawn on it,
-- in their order; fonts, positions and the file are left out, and names are given uncut (the page
-- has their first 40 characters).
use inventra.Prelude.{
  ℕ, String, ◌≡◌, refl, ◌∙◌, sym, false, Option, some, List, [], ◌∷◌, sum_by, All, if◌then◌else◌,
}
use inventra.Prelude.Int.{ℤ, pos, ◌+ℤ◌, ◌*ℤ◌, zero-+ℤ, +ℤ_assoc, +ℤ_zero}
use inventra.Catalog.Models.{Product}
use inventra.Inventory.Models.{SalesOrder, SalesOrderItem}
use inventra.Inventory.Sales.{is_created, items_of, get_sales_order}
use inventra.Inventory.Stock.{get_product}
use inventra.Reports.Views.{sales_total}
use inventra.Session.{Session, Action, ok, pure, raise, gets, or_raise, value_error, ◌>>=◌}
use inventra.Django.Env.{Env}

pub record InvoiceLine : Type 0 where
  pub name : String
  pub quantity : ℤ
  pub unit_price : ℤ
  pub line_total : ℤ

pub record Invoice : Type 0 where
  pub invoice_number : ℕ
  pub sales_order : ℕ
  pub invoiced_at : Option ℕ
  pub customer_name : Option String
  pub customer_phone : Option String
  pub lines : List InvoiceLine
  pub total : ℤ

abbrev pub invoice_line : Product → SalesOrderItem → ℤ → InvoiceLine
invoice_line product item line_total = record {
  name = product.name;
  quantity = item.quantity;
  unit_price = item.unit_price;
  line_total = line_total;
}

abbrev pub invoice_of : SalesOrder → ℕ → List InvoiceLine → ℤ → Invoice
invoice_of so invoice_number lines total = record {
  invoice_number = invoice_number;
  sales_order = so.id;
  invoiced_at = so.invoiced_at;
  customer_name = so.customer_name;
  customer_phone = so.customer_phone;
  lines = lines;
  total = total;
}

module _ (env : Env) where
  -- the loop over the lines, with the running total
  unfoldable pub draw_lines : List SalesOrderItem → ℤ → Action (List InvoiceLine × ℤ)
  unfolding get_product
  draw_lines [] total = pure ([], total)
  draw_lines (item ∷ items) total = do
    product ← get_product env item.product
    let line_total = item.quantity *ℤ item.unit_price
    (lines, total') ← draw_lines items (total +ℤ line_total)
    pure (invoice_line product item line_total ∷ lines, total')

  unfoldable pub draw_invoice : SalesOrder → ℕ → Action Invoice
  unfolding draw_lines
  draw_invoice so invoice_number = do
    items ← gets (λ s. items_of env so.id s.sales_order_items)
    (lines, total) ← draw_lines items (pos 0)
    pure (invoice_of so invoice_number lines total)

  unfoldable pub generate_invoice_pdf : ℕ → Action Invoice
  unfolding get_sales_order draw_invoice
  generate_invoice_pdf sales_order_id = do
    so ← get_sales_order env sales_order_id
    if is_created so.status
        then raise value_error
        else (do number ← or_raise so.invoice_number value_error; draw_invoice so number)

  -- the products of the lines are in the table
  abbrev pub HasProducts : List Product → List SalesOrderItem → Type 0
  HasProducts products =
      All λ (i : SalesOrderItem). (p : Product) × (env.orm.products.get i.product products ≡ some p)

  abbrev line_amount : SalesOrderItem → ℤ
  line_amount i = i.quantity *ℤ i.unit_price

  draw_lines-total :
      (items : List SalesOrderItem) (total : ℤ) (s : Session)
      → HasProducts s.products items
      → (lines : List InvoiceLine) × (draw_lines items total s
          ≡ (ok (lines, total +ℤ sum_by line_amount items), s))
        × (sum_by (λ (l : InvoiceLine). l.line_total) lines ≡ sum_by line_amount items)
  unfolding draw_lines get_product sum_by
  draw_lines-total [] total s h = ([], rw (+ℤ_zero total) refl, refl)
  draw_lines-total (item ∷ items) total s ((p, found), h) =
      let (lines, e, sum) = draw_lines-total items (total +ℤ line_amount item) s h in
      (
        invoice_line p item (line_amount item) ∷ lines,
        rw (found, e, +ℤ_assoc total (line_amount item) (sum_by line_amount items)) refl,
        rw sum refl,
      )

  -- For an order that is completed, has its invoice number and has the products of its lines in the
  -- table, the task returns and changes nothing, and the total on the invoice is the sum of its
  -- lines and the amount that the sales report computes for the order.
  pub generate_invoice_pdf-total :
      (pk number : ℕ) (so : SalesOrder) (s : Session)
      → env.orm.sales_orders.get pk s.sales_orders ≡ some so
      → is_created so.status ≡ false
      → so.invoice_number ≡ some number
      → HasProducts s.products (items_of env so.id s.sales_order_items)
      → (invoice : Invoice) × (generate_invoice_pdf pk s ≡ (ok invoice, s))
        × (sum_by (λ (l : InvoiceLine). l.line_total) invoice.lines ≡ invoice.total)
        × (invoice.total ≡ sales_total env s.sales_order_items so)
  unfolding generate_invoice_pdf get_sales_order draw_invoice sales_total items_of
  generate_invoice_pdf-total pk number so s found closed numbered h =
      let (lines, e, sum) = draw_lines-total (items_of env so.id s.sales_order_items) (pos 0) s h in
      let amount : ℤ = sum_by line_amount (items_of env so.id s.sales_order_items) in
      (
        invoice_of so number lines (pos 0 +ℤ amount),
        rw (found, closed, numbered, e) refl,
        sum ∙ sym (zero-+ℤ amount),
        zero-+ℤ amount,
      )
