-- ===== src/Api/Requests.antt =====
-- The requests of the API that change orders, returns, stock and products, one after another.
use inventra.Prelude.{ℕ, ◌≡◌, Bool, Option, none}
use inventra.Prelude.{some}
use inventra.Accounts.Models.{User}
use inventra.Inventory.Models.{PurchaseOrderStatus, SalesOrder, SalesOrderStatus, ReturnStatus}
use inventra.Inventory.Requests.{Query}
use inventra.Inventory.Purchases as Purchases
use inventra.Inventory.Purchases.{PurchaseOrderInput, receive}
use inventra.Inventory.Sales as Sales
use inventra.Inventory.Sales.{SalesOrderInput}
use inventra.Inventory.Sales.Complete.{complete, ordered_items}
use inventra.Inventory.Sales.Lines.{IsDistinct}
use inventra.Inventory.Returns as Returns
use inventra.Inventory.Returns.{ReturnInput, approve}
use inventra.Inventory.Damage.{DamageInput, post}
use inventra.Inventory.Tasks.{reconcile_ledger}
use inventra.Inventory.Tasks.Reconcile.{IsKeyed}
use inventra.Catalog.Products.{destroy_product}
use inventra.Catalog.Editing.{ProductInput, create_product, update_product}
use inventra.Session.{Session}
use inventra.Django.Env.{Env}

module _ (env : Env) where
  -- one request, from the state that it finds to the state that it leaves, however it ends
  pub data Step : Session → Session → Type 0 where
    purchase_create :
        (user : User) (input : PurchaseOrderInput) (s : Session)
        → Step s (Purchases.create env user input s).1
    purchase_update :
        (q : Query PurchaseOrderStatus) (partial : Bool) (pk : ℕ) (input : PurchaseOrderInput)
        (s : Session)
        → Step s (Purchases.update env q partial pk input s).1
    purchase_receive : (user : User) (pk : ℕ) (s : Session) → Step s (receive env user pk s).1
    sale_create :
        (user : User) (input : SalesOrderInput) (s : Session)
        → Step s (Sales.create env user input s).1
    sale_update :
        (q : Query SalesOrderStatus) (partial : Bool) (pk : ℕ) (input : SalesOrderInput)
        (s : Session)
        → Step s (Sales.update env q partial pk input s).1
    -- of an order whose lines are of different products
    sale_complete :
        (user : User) (pk : ℕ) (s : Session)
        → ((so : SalesOrder)
            → env.orm.sales_orders.get pk s.sales_orders ≡ some so
            → IsDistinct (ordered_items env so.id s.sales_order_items))
        → Step s (complete env user pk s).1
    return_create :
        (user : User) (input : ReturnInput) (s : Session)
        → Step s (Returns.create env user input s).1
    return_approve : (user : User) (pk : ℕ) (s : Session) → Step s (approve env user pk s).1
    return_destroy :
        (status : Option ReturnStatus) (pk : ℕ) (s : Session)
        → Step s (Returns.destroy env status pk s).1
    damage : (user : User) (input : DamageInput) (s : Session) → Step s (post env user input s).1
    -- of a product, without its stock
    product_update :
        (partial : Bool) (pk : ℕ) (input : ProductInput) (s : Session)
        → input.current_stock ≡ none
        → IsKeyed env s.products
        → Step s (update_product env partial pk input s).1
    product_destroy : (pk : ℕ) (s : Session) → Step s (destroy_product env pk s).1
    -- the nightly task
    reconcile : (s : Session) → Step s (reconcile_ledger env s).1
    -- time passes
    tick : (now : ℕ) (s : Session) → Step s (record s { now = now })

  -- requests one after another
  pub data Steps : Session → Session → Type 0 where
    stop : (s : Session) → Steps s s
    next : {s t u : Session} → Step s t → Steps t u → Steps s u

  -- one request of those above without their conditions, or the creation of a product
  pub data Request : Session → Session → Type 0 where
    usual : {s t : Session} → Step s t → Request s t
    any_sale_complete : (user : User) (pk : ℕ) (s : Session) → Request s (complete env user pk s).1
    any_product_update :
        (partial : Bool) (pk : ℕ) (input : ProductInput) (s : Session)
        → Request s (update_product env partial pk input s).1
    product_create : (input : ProductInput) (s : Session) → Request s (create_product env input s).1

  -- such requests one after another
  pub data Requests : Session → Session → Type 0 where
    none_more : (s : Session) → Requests s s
    then_more : {s t u : Session} → Request s t → Requests t u → Requests s u
