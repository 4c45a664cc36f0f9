-- ===== src/Inventory/Requests.antt =====
-- The query parameters that apps/inventory/views.py filters by, `get_object()` of a view set, and
-- the parts that the write serializers of apps/inventory/serializers.py share.
use inventra.Prelude.{
  ℕ, Bool, true, false, ◌&&◌, Option, none, some, List, [], ◌∷◌, map, ◌==◌, leb, if◌then◌else◌,
}
use inventra.Prelude.Int.{ℤ, pos, leb_ℤ, ltb_ℤ}
use inventra.Catalog.Models.{Product}
use inventra.Session.{
  Action, pure, gets, or_raise, raise_unless, not_found, validation_error, ◌>>=◌,
}
pub use inventra.Django.Table.{every}
use inventra.Django.Table.{Table}
use inventra.Django.Env.{Env}

-- `self.request.query_params`; an absent or an empty parameter is `none`
pub record Query (S : Type 0) : Type 0 where
  pub start_date : Option ℕ
  pub end_date : Option ℕ
  pub status : Option S

abbrev pub no_query : {S : Type 0} → Query S
no_query = record { start_date = none; end_date = none; status = none }

module _ {R : Type 0} {pk : R → ℕ} (table : Table R pk) where
  -- `DateRangeFilterMixin.filter_date_range`
  unfoldable pub filter_date_range : {S : Type 0} → (R → ℕ) → Query S → List R → List R
  filter_date_range created_at q rows =
      let from : List R = elim q.start_date [
        | none ↦ rows
        | some start ↦ table.filter (λ r. leb start (created_at r)) rows
      ] in
      elim q.end_date [ none ↦ from | some end ↦ table.filter (λ r. leb (created_at r) end) from ]

  -- `self.get_object()`: the row with the key among those that the view shows
  unfoldable pub get_object : List R → ℕ → Action R
  get_object visible k = or_raise (table.get k visible) not_found

  -- `objects.filter(...).exists()`
  unfoldable pub exists : (R → Bool) → List R → Bool
  exists p rows = elim (table.filter p rows) [ [] ↦ false | _ ∷ _ ↦ true ]

-- a field that is absent is not checked
abbrev pub is_valid_if_given : {A : Type 0} → (A → Bool) → Option A → Bool
is_valid_if_given test none = true
is_valid_if_given test (some value) = test value

-- the identifiers that are there
abbrev pub given : List (Option ℕ) → List ℕ
given [] = []
given (none ∷ ks) = given ks
given (some k ∷ ks) = k ∷ given ks

abbrev pub contains : ℕ → List ℕ → Bool
contains k [] = false
contains k (x ∷ xs) = if x == k then true else contains k xs

-- the optional step of a serializer or a handler
abbrev pub when_given : {A : Type 0} → Option A → (A → Action Unit) → Action Unit
when_given none f = pure tt
when_given (some a) f = f a

abbrev pub is_given : {A : Type 0} → Option A → Bool
is_given none = false
is_given (some a) = true

-- `max_digits=10, decimal_places=2, min_value=0`, in cents
unfoldable pub is_price : ℤ → Bool
is_price c = leb_ℤ (pos 0) c && ltb_ℤ c (pos 10000000000)

module _ (env : Env) where
  -- `validate_supplier_id`
  unfoldable pub validate_supplier_id : ℕ → Action Unit
  unfolding exists
  validate_supplier_id value = do
    suppliers ← gets (λ s. s.suppliers)
    raise_unless (exists env.orm.suppliers (λ r. r.id == value && r.is_active) suppliers)
        validation_error

  -- `validate_items` of both order serializers, on the identifiers of the products
  unfoldable pub validate_items : List ℕ → Action Unit
  validate_items [] = raise_unless false validation_error
  validate_items (k ∷ ks) = do
    products ← gets (λ s. s.products)
    let product_ids = k ∷ ks
    let active =
        env.orm.products.filter (λ (r : Product). contains r.id product_ids && r.is_active) products
    let active_ids = map (λ (r : Product). r.id) active
    raise_unless (every (λ (i : ℕ). contains i active_ids) product_ids) validation_error
