-- ===== src/Tests/Replays.antt =====
-- A request that succeeds, and repeated requests, at the shop of `Tests.Shop`.
use inventra.Prelude.{ℕ, ◌+◌, ◌*◌, ◌^◌, ◌==◌, ◌≤◌, ◌≡◌, ◌⊎◌, refl, some, false, [], ◌∷◌, arith}
use inventra.Prelude.Int.{◌-ℤ◌}
use inventra.Inventory.Purchases.{receive}
use inventra.Inventory.Purchases.Replay.{receive_twice}
use inventra.Inventory.Sales.Replay.{complete_twice}
use inventra.Inventory.Sales.{items_of}
use inventra.Inventory.Sales.Complete.{has_invoice, invoice_digits, complete, ordered_items}
use inventra.Inventory.Sales.Oversell.{CanComplete}
use inventra.Inventory.Sales.Sold.{closed, IsSold}
use inventra.Django.Env.{Env}
use inventra.Inventory.Sales.Fulfilled.{complete_fulfilled}
use inventra.Inventory.Stock.{is_integer_field}
use inventra.Inventory.Requests.{exists}
use inventra.Inventory.Models.{created, completed}
use inventra.Django.Find.{find}
use inventra.Django.Rows.{sort_by}
use inventra.Inventory.Returns.{approve}
use inventra.Inventory.Returns.Replay.{approve_twice}
use inventra.Http.{
  respond, detail, already_received, already_completed, already_approved, sales_order_data,
}
use inventra.Session.{Session, ok}
use inventra.Tests.Shop.{env, boss, user, sales_order, sales_item, lamp, shop}
use inventra.Accounts.Models.{manager}

receive_twice_example :
    let (_, t) = receive env boss 20 shop in
    let (r, u) = receive env (user 3 manager) 20 t in
    (t.db ≡ shop.db) ⊎ ((r ≡ ok (respond 409 (detail already_received))) × (u.db ≡ t.db))
receive_twice_example = receive_twice env boss (user 3 manager) 20 shop

complete_twice_example :
    let (_, t) = complete env boss 30 shop in
    let (r, u) = complete env (user 3 manager) 30 t in
    (t.db ≡ shop.db) ⊎ ((r ≡ ok (respond 409 (detail already_completed))) × (u.db ≡ t.db))
complete_twice_example = complete_twice env boss (user 3 manager) 30 shop

approve_twice_example :
    let (_, t) = approve env boss 50 shop in
    let (r, u) = approve env (user 3 manager) 50 t in
    (t.db ≡ shop.db) ⊎ ((r ≡ ok (respond 409 (detail already_approved))) × (u.db ≡ t.db))
approve_twice_example = approve_twice env boss (user 3 manager) 50 shop

-- identifiers whose first digits count up from a thousand
abbrev counting_env : Env
counting_env = record env { uuid4 = λ n. (n + 1000) * 2 ^ 88 }

-- the shop when order 31 has the invoice number 7
abbrev invoiced_shop : Session
invoiced_shop = record shop {
  db = record shop.db {
    sales_orders =
        sales_order 30 created ∷ record (sales_order 31 completed) { invoice_number = some 7 } ∷ [];
  };
}

abbrev can_complete_30 : CanComplete counting_env 30 invoiced_shop
unfolding find sort_by items_of ordered_items
can_complete_30 = record {
  so = sales_order 30 created;
  lines = (sales_item 33 30 2, lamp) ∷ [];
  found = refl;
  is_open = refl;
  all_lines = refl;
  current = (refl, tt);
  covered = (omega arith, tt);
}

other_number : (n : ℕ) → (7 == invoice_digits (counting_env.uuid4 n)) ≡ false
unfolding invoice_digits
other_number n = ground arith

no_other_invoice :
    (n : ℕ)
    → invoiced_shop.draws ≤ n
    → exists counting_env.orm.sales_orders
        (λ r. has_invoice 30 (invoice_digits (counting_env.uuid4 n)) r)
        invoiced_shop.sales_orders
      ≡ false
unfolding exists
no_other_invoice n le = rw (exists, other_number n) refl

complete_fulfilled_example :
    (t : Session) × (made : IsSold counting_env
      (sales_order 30 created)
      can_complete_30.lines
      invoiced_shop
      t.db)
    × (complete counting_env boss 30 invoiced_shop ≡ (
      ok (
          respond 200 (
            sales_order_data
              (closed counting_env
                (sales_order 30 created)
                (counting_env.uuid4 made.draws)
                invoiced_shop.now)
              (items_of counting_env 30 invoiced_shop.sales_order_items))),
      t,
    ))
unfolding is_integer_field ◌-ℤ◌ can_complete_30
complete_fulfilled_example =
    complete_fulfilled counting_env boss 30 invoiced_shop can_complete_30 ((refl, refl), tt)
      no_other_invoice
