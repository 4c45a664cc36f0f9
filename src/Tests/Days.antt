-- ===== src/Tests/Days.antt =====
-- Some requests at the shop, one after another.
use inventra.Prelude.{◌≡◌, refl, some, none, sum_by}
use inventra.Prelude.Int.{pos}
use inventra.Django.Find.{find}
use inventra.Inventory.Requests.{Query, no_query}
use inventra.Inventory.Stock.{signed_quantity}
use inventra.Inventory.Transactions.{get_queryset, get_queryset-stock}
use inventra.Inventory.Ledger.{IsBalanced}
use inventra.Inventory.Purchases.{receive}
use inventra.Inventory.Damage.{post}
use inventra.Inventory.Sales.Complete.{complete}
use inventra.Api.Requests.{
  Steps, purchase_receive, damage, stop, next, Requests, usual, any_sale_complete, none_more,
  then_more,
}
use inventra.Api.Ledger.{steps-IsBalanced}
use inventra.Api.Growth.{Grows}
use inventra.Api.AppendOnly.{steps-Grows}
use inventra.Session.{Session}
use inventra.Tests.Shop.{env, boss, lamp, shop}
use inventra.Tests.Witnesses.{shop-IsBalanced, damage_input}

-- a receipt and a write-off
abbrev evening : Session
evening = (post env boss damage_input (receive env boss 20 shop).1).1

abbrev requests : Steps env shop evening
requests =
    next (purchase_receive boss 20 shop)
      (next (damage boss damage_input (receive env boss 20 shop).1) (stop evening))

steps-IsBalanced_example : IsBalanced env evening.products evening.transactions
steps-IsBalanced_example = steps-IsBalanced env shop evening requests shop-IsBalanced

-- a receipt, and a sale with two lines of one product
abbrev night : Session
night = (complete env boss 32 (receive env boss 20 shop).1).1

abbrev more_requests : Requests env shop night
more_requests =
    then_more (usual (purchase_receive boss 20 shop))
      (then_more (any_sale_complete boss 32 (receive env boss 20 shop).1) (none_more night))

steps-Grows_example : Grows shop.transactions night.transactions
steps-Grows_example = steps-Grows env shop night more_requests

lamp-found : env.orm.products.get 10 shop.products ≡ some lamp
unfolding find
lamp-found = refl

abbrev any_day : Query Unit
any_day = no_query

get_queryset-stock_example :
    sum_by signed_quantity (get_queryset env any_day (some 10) none shop.transactions) ≡ pos 5
get_queryset-stock_example =
    get_queryset-stock env any_day 10 lamp shop.products shop.transactions refl refl lamp-found
      shop-IsBalanced
