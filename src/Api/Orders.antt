-- ===== src/Api/Orders.antt =====
-- The handlers of orders that move no stock: they leave the products and the ledger as they were.
use inventra.Prelude.{ℕ, refl, ◌⊎◌, inl, inr, String, Option, Bool, List, [], ◌∷◌}
use inventra.Accounts.Models.{User}
use inventra.Catalog.Models.{Product}
use inventra.Inventory.Models.{
  PurchaseOrder, SalesOrder, Return, ReturnStatus, InventoryTransaction, PurchaseOrderStatus,
  SalesOrderStatus,
}
use inventra.Inventory.Requests.{Query, validate_supplier_id, validate_items, get_object}
use inventra.Inventory.Purchases as Purchases
use inventra.Inventory.Purchases.{PurchaseItemInput, PurchaseOrderInput}
use inventra.Inventory.Sales as Sales
use inventra.Inventory.Sales.{SalesItemInput, SalesOrderInput}
use inventra.Inventory.Returns as Returns
use inventra.Inventory.Returns.{ReturnInput}
use inventra.Session.{Db}
use inventra.Http.{Response}
use inventra.Prelude.Int.{ℤ}
use inventra.Session.Keeps.{Preorder, same, Keeps, keeps}
use inventra.Django.Env.{Env}

-- the products and the ledger
abbrev pub books : Db → List Product × List InventoryTransaction
books db = (db.products, db.transactions)

abbrev pub same_books : Preorder
same_books = same books

module _ (env : Env) where
  validate_items-Keeps : (ks : List ℕ) → Keeps same_books (validate_items env ks)
  unfolding validate_items
  validate_items-Keeps [] = search keeps
  validate_items-Keeps (k ∷ ks) = search keeps

  validate_supplier_id-Keeps : (k : ℕ) → Keeps same_books (validate_supplier_id env k)
  unfolding validate_supplier_id
  validate_supplier_id-Keeps k = search keeps

  module _ (input : PurchaseOrderInput) where
    purchase-is_valid-Keeps :
        (partial : Bool) → Keeps same_books (Purchases.is_valid env partial input)
    unfolding Purchases.is_valid
    purchase-is_valid-Keeps partial =
        search (keeps, validate_supplier_id-Keeps, validate_items-Keeps) depth 12

    new_item-Keeps :
        (po : ℕ) (item : PurchaseItemInput) → Keeps same_books (Purchases.new_item env po item)
    unfolding Purchases.new_item
    new_item-Keeps po item = search keeps

    create_items-Keeps :
        (po : ℕ) (items : List PurchaseItemInput)
        → Keeps same_books (Purchases.create_items env po items)
    unfolding Purchases.create_items
    create_items-Keeps po items = search (keeps, new_item-Keeps)

    purchase-serialize-Keeps :
        (status : ℕ) (po : PurchaseOrder) → Keeps same_books (Purchases.serialize env status po)
    unfolding Purchases.serialize
    purchase-serialize-Keeps status po = search keeps

    pub purchase-create-Keeps : (user : User) → Keeps same_books (Purchases.create env user input)
    unfolding Purchases.create
    purchase-create-Keeps user =
        search (keeps, purchase-is_valid-Keeps, create_items-Keeps, purchase-serialize-Keeps) depth
          12

    purchase-write-Keeps : (po : ℕ) → Keeps same_books (Purchases.write env po input)
    unfolding Purchases.write
    purchase-write-Keeps po = search (keeps, create_items-Keeps) depth 12

    pub purchase-update-Keeps :
        (q : Query PurchaseOrderStatus) (partial : Bool) (pk : ℕ)
        → Keeps same_books (Purchases.update env q partial pk input)
    unfolding Purchases.update Purchases.refresh_from_db get_object
    purchase-update-Keeps q partial pk =
        search (keeps, purchase-is_valid-Keeps, purchase-write-Keeps, purchase-serialize-Keeps)
          depth 12

  module _ (input : SalesOrderInput) where
    sale-is_valid-Keeps : (partial : Bool) → Keeps same_books (Sales.is_valid env partial input)
    unfolding Sales.is_valid
    sale-is_valid-Keeps partial = search (keeps, validate_items-Keeps) depth 12

    sale-new_item-Keeps :
        (products : List Product) (so : ℕ) (item : SalesItemInput)
        → Keeps same_books (Sales.new_item env products so item)
    unfolding Sales.new_item
    sale-new_item-Keeps products so item = search keeps depth 12

    sale-create_items-Keeps :
        (so : ℕ) (items : List SalesItemInput) → Keeps same_books (Sales.create_items env so items)
    unfolding Sales.create_items
    sale-create_items-Keeps so items = search (keeps, sale-new_item-Keeps) depth 12

    sale-serialize-Keeps :
        (status : ℕ) (so : SalesOrder) → Keeps same_books (Sales.serialize env status so)
    unfolding Sales.serialize
    sale-serialize-Keeps status so = search keeps

    pub sale-create-Keeps : (user : User) → Keeps same_books (Sales.create env user input)
    unfolding Sales.create
    sale-create-Keeps user =
        search (keeps, sale-is_valid-Keeps, sale-create_items-Keeps, sale-serialize-Keeps) depth 14

    sale-write-Keeps : (so : SalesOrder) → Keeps same_books (Sales.write env so input)
    unfolding Sales.write
    sale-write-Keeps so = search (keeps, sale-create_items-Keeps) depth 12

    pub sale-update-Keeps :
        (q : Query SalesOrderStatus) (partial : Bool) (pk : ℕ)
        → Keeps same_books (Sales.update env q partial pk input)
    unfolding Sales.update Sales.get_sales_order get_object
    sale-update-Keeps q partial pk =
        search (keeps, sale-is_valid-Keeps, sale-write-Keeps, sale-serialize-Keeps) depth 12

  new_return-Keeps :
      (user : User) (so product : ℕ) (quantity : ℤ) (reason : String)
      → Keeps same_books (Returns.new_return env user so product quantity reason)
  unfolding Returns.new_return
  new_return-Keeps user so product quantity reason = search keeps depth 12

  reserve-Keeps :
      (user : User) (so : ℕ) (product : Option ℕ) (reason : String) (quantity : ℤ)
      → Keeps same_books (Returns.reserve env user so product reason quantity)
  unfolding Returns.reserve
  reserve-Keeps user so product reason quantity = search (keeps, new_return-Keeps) depth 12

  to_int-Keeps : (q : Returns.Quantity) → Keeps same_books (Returns.to_int q)
  to_int-Keeps Returns.absent s = refl
  to_int-Keeps (Returns.number n) s = refl
  to_int-Keeps Returns.not_a_number s = refl

  create_block-Keeps :
      (user : User) (input : ReturnInput) → Keeps same_books (Returns.create_block env user input)
  unfolding Returns.create_block Sales.get_sales_order
  create_block-Keeps user input = search (keeps, to_int-Keeps, reserve-Keeps) depth 12

  after_create-Keeps : (r : Response ⊎ Return) → Keeps same_books (Returns.after_create env r)
  after_create-Keeps (inl response) s = refl
  after_create-Keeps (inr ret) s = refl

  pub return-create-Keeps :
      (user : User) (input : ReturnInput) → Keeps same_books (Returns.create env user input)
  unfolding Returns.create
  return-create-Keeps user input = search (keeps, create_block-Keeps, after_create-Keeps)

  pub return-destroy-Keeps :
      (status : Option ReturnStatus) (pk : ℕ) → Keeps same_books (Returns.destroy env status pk)
  unfolding Returns.destroy get_object
  return-destroy-Keeps status pk = search keeps depth 12
