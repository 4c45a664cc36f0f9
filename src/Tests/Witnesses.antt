-- ===== src/Tests/Witnesses.antt =====
-- The theorems at the shop of `Tests.Shop`, and runs of the handlers there.
use inventra.Prelude.{ℕ, ◌≡◌, ◌↔◌, ◌⊎◌, refl, some, List, [], ◌∷◌, map, subst, arith, sum_by}
use inventra.Prelude.Int.{pos, negsuc, ◌-ℤ◌, ◌+ℤ◌}
use mathlib.Core.Option.{some-injective}
use inventra.Notifications.Models.{Notification}
use inventra.Notifications.Frame.{with_notifications}
use inventra.Catalog.Models.{Product}
use inventra.Catalog.Products.{
  out_of_stock, low_stock, in_stock, filter_stock_status, destroy_product,
}
use inventra.Catalog.Status.{filter_stock_status-partition, destroy_product-keeps}
use inventra.Django.Find.{find}
use inventra.Django.Rows.{update_rows, sort_by, group_rows}
use inventra.Notifications.Services.{recipients}
use inventra.Inventory.Models.{SalesOrder, created}
use inventra.Accounts.Models.{User, employee}
use inventra.Accounts.Permissions.{is_admin}
use inventra.Inventory.Stock.{balance, set_stock, is_integer_field}
use inventra.Inventory.Requests.{exists}
use inventra.Inventory.Ledger.{IsBalanced}
use inventra.Inventory.Purchases.{receive}
use inventra.Inventory.Purchases.Receive.{receive-IsBalanced}
use inventra.Inventory.Sales.Complete.{complete, ordered_items}
use inventra.Inventory.Sales.Lines.{IsDistinct}
use inventra.Inventory.Sales.Balance.{complete-IsBalanced}
use inventra.Inventory.Sales.Oversell.{
  IsStocked, complete-IsStocked, CanComplete, complete_all_or_nothing,
}
use inventra.Inventory.Sales.Sold.{IsSold}
use inventra.Inventory.Sales.Repeated.{complete-repeated}
use inventra.Inventory.Returns.{
  approve, create, Quantity, ReturnInput, sold_quantity, already_reserved,
}
use inventra.Inventory.Returns.Approve.{approve-IsBalanced}
use inventra.Inventory.Returns.Reserve.{IsWithinSold, create-IsWithinSold}
use inventra.Inventory.Damage.{DamageInput, post}
use inventra.Inventory.Damage.Balance.{post-IsSound}
use inventra.Inventory.Tasks.{Reconciliation, Sweep, reconcile_ledger, sweep_low_stock}
use inventra.Inventory.Tasks.Reconcile.{report, reconcile_ledger-exact, reconcile_ledger-clean_iff}
use inventra.Inventory.Tasks.Alerts.{sweep_low_stock_twice}
use inventra.Accounts.Routes.{register_request, handle}
use inventra.Accounts.Escalation.{handle_unprivileged}
use inventra.Session.{Session, ok}
use inventra.Tests.Shop.{env, boss, user, lamp, fields, ann, admins, sales_order, sales_item, shop}

-- what the tables of lists compute with
runs : Unit {0}
unfolding find update_rows sort_by group_rows balance sum_by ◌+ℤ◌ ◌-ℤ◌ exists is_integer_field
runs = tt

pub shop-IsBalanced : IsBalanced env shop.products shop.transactions
unfolding find balance sum_by ◌+ℤ◌ ◌-ℤ◌
shop-IsBalanced k p e = ground arith

shop-IsStocked : IsStocked env shop.products
unfolding find
shop-IsStocked k p e = ground arith

receive-IsBalanced_example :
    let (_, t) = receive env boss 20 shop in IsBalanced env t.products t.transactions
receive-IsBalanced_example = receive-IsBalanced env boss 20 shop shop-IsBalanced

order_30-IsDistinct :
    (so : SalesOrder)
    → find (λ (r : SalesOrder). r.id) 30 shop.sales_orders ≡ some so
    → IsDistinct (ordered_items env so.id shop.sales_order_items)
unfolding find ordered_items sort_by
order_30-IsDistinct so e =
    subst (λ (o : SalesOrder). IsDistinct (ordered_items env o.id shop.sales_order_items))
      (some-injective (sales_order 30 created) so e) (tt, tt)

complete-IsBalanced_example :
    let (_, t) = complete env boss 30 shop in IsBalanced env t.products t.transactions
complete-IsBalanced_example =
    complete-IsBalanced env boss 30 shop order_30-IsDistinct shop-IsBalanced

complete-IsStocked_example : let (_, t) = complete env boss 32 shop in IsStocked env t.products
complete-IsStocked_example = complete-IsStocked env boss 32 shop shop-IsStocked

complete_all_or_nothing_example :
    let (_, t) = complete env boss 30 shop in
    (t.db ≡ shop.db) ⊎ ((can : CanComplete env 30 shop) × IsSold env can.so can.lines shop t.db)
complete_all_or_nothing_example = complete_all_or_nothing env boss 30 shop

complete-repeated_example :
    let (_, t) = complete env boss 32 shop in
    ((t.products ≡ shop.products) × (t.transactions ≡ shop.transactions))
    ⊎ ((env.orm.products.get 10 t.products ≡ some (set_stock (pos 5 -ℤ pos 4) lamp))
        × (balance 10 t.transactions ≡ balance 10 shop.transactions -ℤ pos 2 -ℤ pos 4))
unfolding find ordered_items sort_by
complete-repeated_example =
    complete-repeated env boss 32 shop (sales_order 32 created) (sales_item 35 32 2)
      (sales_item 36 32 4) lamp refl refl refl refl

-- Order 32 sells two and four of five lamps: one lamp is left, and the ledger says minus one.
complete_32 :
    let (r, t) = complete env boss 32 shop in
    (map (λ (p : Product). p.current_stock) t.products ≡ pos 1 ∷ [])
    × (balance 10 t.transactions ≡ negsuc 0)
unfolding complete runs
complete_32 = (refl, refl)

approve-IsBalanced_example :
    let (_, t) = approve env boss 50 shop in IsBalanced env t.products t.transactions
approve-IsBalanced_example = approve-IsBalanced env boss 50 shop shop-IsBalanced

abbrev return_input : ReturnInput
return_input = record {
  sales_order = some 31;
  product = some 10;
  quantity = Quantity.number (pos 2);
  reason = "broken";
}

shop-IsWithinSold : IsWithinSold env shop.sales_order_items shop.returns
unfolding sold_quantity already_reserved sum_by ◌+ℤ◌
shop-IsWithinSold so product = ground arith

create-IsWithinSold_example :
    let (_, t) = create env boss return_input shop in IsWithinSold env t.sales_order_items t.returns
create-IsWithinSold_example = create-IsWithinSold env boss return_input shop shop-IsWithinSold

abbrev pub damage_input : DamageInput
damage_input = record { product_id = 10; quantity = pos 2; reason = "dropped" }

post-IsSound_example :
    let (_, t) = post env boss damage_input shop in
    IsBalanced env t.products t.transactions × IsStocked env t.products
post-IsSound_example = post-IsSound env boss damage_input shop shop-IsBalanced shop-IsStocked

reconcile_ledger-clean_iff_example :
    (r : Reconciliation) × ((reconcile_ledger env shop).0 ≡ ok r)
    × ((r.mismatched_count ≡ 0) ↔ IsBalanced env shop.products shop.transactions)
unfolding find
reconcile_ledger-clean_iff_example = reconcile_ledger-clean_iff env shop (refl, tt)

reconcile_ledger-exact_example :
    (n : List Notification) × (d : ℕ) × (reconcile_ledger env shop
      ≡ (ok (report env shop.products shop.transactions), with_notifications shop n d))
reconcile_ledger-exact_example = reconcile_ledger-exact env shop

sweep_low_stock_twice_example :
    (r : Sweep) × (t : Session) × (sweep_low_stock env shop ≡ (ok r, t))
    × (sweep_low_stock env t ≡ (ok (record r { flagged = 0 }), t))
unfolding recipients
sweep_low_stock_twice_example = sweep_low_stock_twice env shop (omega arith)

admins-employee : (u : User) → u.role ≡ employee → admins u ≡ pos 0
admins-employee u e = rw e refl

handle_unprivileged_example :
    sum_by admins ((handle env fields (some (user 2 employee)) (register_request ann) shop).1).users
    ≡ sum_by admins shop.users
unfolding is_admin
handle_unprivileged_example =
    handle_unprivileged env fields admins admins-employee (some (user 2 employee))
      (register_request ann) shop refl

filter_stock_status-partition_example :
    sum_by (λ (p : Product). p.current_stock) (filter_stock_status env out_of_stock shop.products)
      +ℤ sum_by (λ (p : Product). p.current_stock) (filter_stock_status env low_stock shop.products)
      +ℤ sum_by (λ (p : Product). p.current_stock) (filter_stock_status env in_stock shop.products)
    ≡ sum_by (λ (p : Product). p.current_stock) shop.products
filter_stock_status-partition_example =
    filter_stock_status-partition env (λ p. p.current_stock) shop.products refl

destroy_product-keeps_example :
    sum_by (λ (p : Product). p.current_stock) ((destroy_product env 10 shop).1).products
    ≡ sum_by (λ (p : Product). p.current_stock) shop.products
destroy_product-keeps_example = destroy_product-keeps env (λ p. p.current_stock) 10 shop λ p. refl
