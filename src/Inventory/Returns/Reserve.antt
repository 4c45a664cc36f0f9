-- ===== src/Inventory/Returns/Reserve.antt =====
-- How much of a sales order can be returned.
use inventra.Prelude.{
  ℕ, ◌≡◌, refl, inl, inr, true, false, Bool-cases, Option-cases, Option, none, some, String, List,
  arith, ◌⊎◌, if◌then◌else◌, sum_by,
}
use inventra.Prelude.Int.{ℤ, pos, ◌+ℤ◌, ◌-ℤ◌, ◌≤ℤ◌, eqb_ℤ, ltb_ℤ, int_laws, zero-+ℤ}
use inventra.Accounts.Models.{User}
use inventra.Inventory.Models.{SalesOrderItem, Return}
use inventra.Inventory.Stock.{is_positive_integer_field}
use inventra.Inventory.Sales.{is_created, get_sales_order}
use inventra.Inventory.Returns.{
  ReturnInput, Quantity, to_int, is_reserved, sold_quantity, already_reserved, file_return, reserve,
  create_block, after_create, create,
}
use inventra.Http.{Response}
use inventra.Session.{Session, Action, continue}
use inventra.Session.Outcome.{Returns}
use inventra.Django.Env.{Env, draw}
use inventra.Django.Atomic.{IsReader, atomic_then}

module _ (env : Env) where
  -- of no product of an order are there more returns, pending or approved, than were sold
  abbrev pub IsWithinSold : List SalesOrderItem → List Return → Type 0
  IsWithinSold items returns =
      (so : ℕ) (product : ℕ)
      → already_reserved env so (some product) returns ≤ℤ sold_quantity env so (some product) items

  abbrev weight : ℕ → ℕ → Return → ℤ
  weight so product r = if is_reserved so (some product) r then r.quantity else pos 0

  already_reserved-eq-sum :
      (so product : ℕ) (returns : List Return)
      → already_reserved env so (some product) returns ≡ sum_by (weight so product) returns
  unfolding already_reserved
  already_reserved-eq-sum so product returns =
      env.orm.returns.sum-filter (λ (r : Return). r.quantity) (is_reserved so (some product))
        returns

  already_reserved-insert :
      (so product : ℕ) (r : Return) (returns : List Return)
      → already_reserved env so (some product) (env.orm.returns.insert r returns)
        ≡ weight so product r +ℤ already_reserved env so (some product) returns
  already_reserved-insert so product r returns =
      rw (already_reserved-eq-sum, already_reserved-eq-sum)
        (env.orm.returns.sum-insert (weight so product) r returns)

  insert-IsWithinSold :
      (so product : ℕ) (r : Return) (items : List SalesOrderItem) (returns : List Return)
      → r.sales_order ≡ so
      → r.product ≡ product
      → r.quantity
        ≤ℤ sold_quantity env so (some product) items
          -ℤ already_reserved env so (some product) returns
      → IsWithinSold items returns
      → IsWithinSold items (env.orm.returns.insert r returns)
  insert-IsWithinSold so product r items returns of_so of_product room h so' product' =
      rw (already_reserved-insert so' product' r returns)
        (added (Bool-cases (is_reserved so' (some product') r)))
    where
      added :
          (is_reserved so' (some product') r ≡ true) ⊎ (is_reserved so' (some product') r ≡ false)
          → weight so' product' r +ℤ already_reserved env so' (some product') returns
            ≤ℤ sold_quantity env so' (some product') items
      added (inr e) = rw (e, zero-+ℤ) (h so' product')
      added (inl e) =
          let same_so : so ≡ so' = ground (arith, of_so) in
          let same_product : product ≡ product' = ground (arith, of_product) in
          rw e (rw (← same_so, ← same_product) (omega int_laws))

  abbrev KeepsWithinSold : {A : Type 0} → Action A → Type 0
  KeepsWithinSold m =
      (s : Session)
      → IsWithinSold s.sales_order_items s.returns
      → Returns (λ _ t. IsWithinSold t.sales_order_items t.returns) (m s)

  reserve-IsWithinSold :
      (user : User) (so : ℕ) (product_id : Option ℕ) (reason : String) (quantity : ℤ)
      → KeepsWithinSold (reserve env user so product_id reason quantity)
  unfolding reserve draw
  reserve-IsWithinSold user so product_id reason quantity s h =
      let sold : ℤ = sold_quantity env so product_id s.sales_order_items in
      let remaining : ℤ = sold -ℤ already_reserved env so product_id s.returns in
      elim (Bool-cases (eqb_ℤ sold (pos 0))) [
        | inl other ↦ rw other h
        | inr part ↦ elim (Bool-cases (ltb_ℤ remaining quantity)) [
          | inl over ↦ rw (part, over) h
          | inr enough ↦ rw (part, enough) (created product_id (ground arith))
        ]
      ]
    where
      created :
          (product_id : Option ℕ)
          → quantity
            ≤ℤ sold_quantity env so product_id s.sales_order_items
              -ℤ already_reserved env so product_id s.returns
          → Returns
              (λ _ t. IsWithinSold t.sales_order_items t.returns)
              (file_return env user so product_id reason quantity s)
      created none room = tt
      created (some product) room = elim (Bool-cases (is_positive_integer_field quantity)) [
        | inr bad ↦ rw bad tt
        | inl good ↦
            rw good
              (insert-IsWithinSold so product _ s.sales_order_items s.returns refl refl room h)
      ]

  create_block-IsWithinSold :
      (user : User) (input : ReturnInput) → KeepsWithinSold (create_block env user input)
  unfolding create_block get_sales_order
  create_block-IsWithinSold user input s h = elim (Option-cases input.sales_order) [
    | inl e ↦ rw e tt
    | inr (pk, e) ↦ elim (Option-cases (env.orm.sales_orders.get pk s.sales_orders)) [
      | inl e' ↦ rw (e, e') tt
      | inr (so, e') ↦ elim (Bool-cases (is_created so.status)) [
        | inl open_order ↦ rw (e, e', open_order) h
        | inr completed_order ↦ rw (e, e', completed_order) (filed so.id input.quantity)
      ]
    ]
  ]
    where
      filed :
          (so : ℕ) (quantity : Quantity)
          → Returns
              (λ _ t. IsWithinSold t.sales_order_items t.returns)
              (let (q, t) = to_int quantity s in
                continue q (reserve env user so input.product input.reason) t)
      filed so Quantity.absent = reserve-IsWithinSold user so input.product input.reason (pos 0) s h
      filed so (Quantity.number n) = reserve-IsWithinSold user so input.product input.reason n s h
      filed so Quantity.not_a_number = tt

  -- Filing a return never lets the returns of a product, pending or approved, exceed what its sales
  -- order sold of it.
  pub create-IsWithinSold :
      (user : User) (input : ReturnInput) (s : Session)
      → IsWithinSold s.sales_order_items s.returns
      → let (_, t) = create env user input s in IsWithinSold t.sales_order_items t.returns
  unfolding create
  create-IsWithinSold user input s h =
      atomic_then (λ db. IsWithinSold db.sales_order_items db.returns) (after_create env)
        after_create-IsReader env (create_block env user input) s h
        (create_block-IsWithinSold user input s h)
    where
      after_create-IsReader : (r : Response ⊎ Return) → IsReader (after_create env r)
      after_create-IsReader (inl response) t = refl
      after_create-IsReader (inr ret) t = refl
