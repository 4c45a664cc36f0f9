-- ===== src/Inventory/Returns.antt =====
-- `ReturnViewSet` of apps/inventory/views.py. `create` reads `request.data` without the serializer.
pub mod Approve
pub mod Replay
pub mod Reserve
use inventra.Prelude.{
  ℕ, String, Bool, true, false, not, ◌&&◌, Option, none, some, List, ◌==◌, ◌⊎◌, inl, inr,
  if◌then◌else◌, sum_by,
}
use inventra.Prelude.Int.{ℤ, pos, ◌+ℤ◌, ◌-ℤ◌, eqb_ℤ, ltb_ℤ}
use inventra.Accounts.Models.{User}
use inventra.Inventory.Models.{
  SalesOrderItem, Return, ReturnStatus, pending, approved, TransactionType,
}
use inventra.Inventory.Stock.{
  is_positive_integer_field, set_stock, get_product, save_stock, create_transaction,
}
use inventra.Inventory.Requests.{get_object}
use inventra.Inventory.Sales.{is_created, get_sales_order}
use inventra.Http.{
  Response, respond, detail, not_completed, not_part_of_order, exceeds_remaining, already_approved,
  return_data, no_content,
}
use inventra.Session.{
  Action, pure, raise, gets, or_raise, raise_unless, modify, on_commit, bump_inventory,
  does_not_exist, integrity_error, value_error, ◌>>=◌, ◌>>◌,
}
use inventra.Django.Env.{Env, draw}

-- `request.data.get("quantity", 0)` before `int(...)`
pub data Quantity : Type 0 where
  absent : Quantity
  number : ℤ → Quantity
  not_a_number : Quantity

-- `request.data`; an absent field is `none`, and an absent reason the empty text
pub record ReturnInput : Type 0 where
  pub sales_order : Option ℕ
  pub product : Option ℕ
  pub quantity : Quantity
  pub reason : String

abbrev pub to_int : Quantity → Action ℤ
to_int absent = pure (pos 0)
to_int (number n) = pure n
to_int not_a_number = raise value_error

abbrev pub is_approved : ReturnStatus → Bool
is_approved approved = true
is_approved pending = false

-- `status__in=[ReturnStatus.PENDING, ReturnStatus.APPROVED]`
abbrev pub is_pending_or_approved : ReturnStatus → Bool
is_pending_or_approved pending = true
is_pending_or_approved approved = true

-- `product_id=product_id`; no row has a null product
abbrev pub is_product : Option ℕ → ℕ → Bool
is_product none k = false
is_product (some j) k = k == j

-- the filter of `already_reserved`
abbrev pub is_reserved : ℕ → Option ℕ → Return → Bool
is_reserved so product_id r =
    r.sales_order == so && (is_product product_id r.product && is_pending_or_approved r.status)

module _ (env : Env) where
  -- `sum(i.quantity for i in so.items.filter(product_id=product_id))`
  unfoldable pub sold_quantity : ℕ → Option ℕ → List SalesOrderItem → ℤ
  sold_quantity so product_id items =
      sum_by (λ (i : SalesOrderItem). i.quantity)
        (env.orm.sales_order_items.filter
          (λ (i : SalesOrderItem). i.sales_order == so && is_product product_id i.product) items)

  -- `sum(r.quantity for r in Return.objects.filter(...))`
  unfoldable pub already_reserved : ℕ → Option ℕ → List Return → ℤ
  already_reserved so product_id returns =
      sum_by (λ (r : Return). r.quantity)
        (env.orm.returns.filter (is_reserved so product_id) returns)

  -- `Return.objects.create(...)`
  unfoldable pub new_return : User → ℕ → ℕ → ℤ → String → Action Return
  unfolding draw
  new_return user so product quantity reason = do
    raise_unless (is_positive_integer_field quantity) integrity_error
    id ← draw env
    now ← gets (λ s. s.now)
    let row : Return = record {
      id = id;
      sales_order = so;
      product = product;
      quantity = quantity;
      reason = reason;
      status = pending;
      approved_by = none;
      created_at = now;
      created_by = some user.id;
    }
    modify λ db. record db { returns = env.orm.returns.insert row db.returns }
    pure row

  abbrev pub file_return : User → ℕ → Option ℕ → String → ℤ → Action (Response ⊎ Return)
  file_return user so product_id reason quantity = do
    product ← or_raise product_id integrity_error
    ret ← new_return user so product quantity reason
    pure (inr ret)

  -- the quantities are read and compared, and then the row is created
  unfoldable pub reserve : User → ℕ → Option ℕ → String → ℤ → Action (Response ⊎ Return)
  unfolding new_return
  reserve user so product_id reason quantity = do
    sold ← gets (λ s. sold_quantity so product_id s.sales_order_items)
    reserved ← gets (λ s. already_reserved so product_id s.returns)
    let remaining = sold -ℤ reserved
    if eqb_ℤ sold (pos 0)
        then pure (inl (respond 400 (detail not_part_of_order)))
        else if ltb_ℤ remaining quantity
        then pure (inl (respond 400 (detail (exceeds_remaining remaining))))
        else file_return user so product_id reason quantity

  -- the body of `with transaction.atomic():` in `create`
  unfoldable pub create_block : User → ReturnInput → Action (Response ⊎ Return)
  unfolding get_sales_order reserve
  create_block user input = do
    pk ← or_raise input.sales_order does_not_exist
    so ← get_sales_order env pk
    if is_created so.status then pure (inl (respond 400 (detail not_completed))) else (do
      quantity ← to_int input.quantity
      reserve user so.id input.product input.reason quantity)

  abbrev pub after_create : Response ⊎ Return → Action Response
  after_create (inl response) = pure response
  after_create (inr ret) = pure (respond 201 (return_data ret))

  unfoldable pub create : User → ReturnInput → Action Response
  unfolding create_block
  create user input = do
    done ← env.atomic (Response ⊎ Return) (create_block user input)
    after_create done

  unfoldable pub get_return : ℕ → Action Return
  get_return pk = do
    found ← gets (λ s. env.orm.returns.get pk s.returns)
    or_raise found does_not_exist

  unfoldable pub finish_approve : User → Return → Action (Response ⊎ ℕ)
  finish_approve user ret = do
    modify λ db. record db {
      returns =
          env.orm.returns.update ret.id
            (λ r. record r { status = approved; approved_by = some user.id }) db.returns;
    }
    on_commit bump_inventory
    pure (inr ret.id)

  -- the body of `with transaction.atomic():` in `approve`, without the logging
  unfoldable pub approve_block : User → ℕ → Action (Response ⊎ ℕ)
  unfolding get_return get_product save_stock create_transaction finish_approve
  approve_block user pk = do
    ret ← get_return pk
    if is_approved ret.status then pure (inl (respond 409 (detail already_approved))) else (do
      found ← get_product env ret.product
      let product = set_stock (found.current_stock +ℤ ret.quantity) found
      save_stock env product
      create_transaction env product ret.quantity TransactionType.return (some ret.id) none user
      finish_approve user ret)

  unfoldable pub after_approve : Response ⊎ ℕ → Action Response
  unfolding get_return
  after_approve (inl response) = pure response
  after_approve (inr ret) = do ret' ← get_return ret; pure (respond 200 (return_data ret'))

  unfoldable pub approve : User → ℕ → Action Response
  unfolding approve_block after_approve
  approve user pk = do done ← env.atomic (Response ⊎ ℕ) (approve_block user pk); after_approve done

  abbrev is_status : Option ReturnStatus → Return → Bool
  is_status none r = true
  is_status (some pending) r = not (is_approved r.status)
  is_status (some approved) r = is_approved r.status

  unfoldable pub get_queryset : Option ReturnStatus → List Return → List Return
  get_queryset none rows = rows
  get_queryset (some status) rows = env.orm.returns.filter (is_status (some status)) rows

  -- `destroy`, which the view set inherits: any return that is shown is deleted, also an approved
  -- one
  unfoldable pub destroy : Option ReturnStatus → ℕ → Action Response
  unfolding get_queryset get_object
  destroy status pk = do
    visible ← gets (λ s. get_queryset status s.returns)
    ret ← get_object env.orm.returns visible pk
    modify λ db. record db {
      returns = env.orm.returns.delete (λ (r : Return). r.id == ret.id) db.returns;
    }
    pure (respond 204 no_content)
