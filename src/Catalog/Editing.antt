-- ===== src/Catalog/Editing.antt =====
-- Creation and update of products: `ProductSerializer` of apps/catalog/serializers.py with the
-- mixins of the REST framework that `ProductViewSet` inherits. Texts are given as the serializer
-- has trimmed them.
use text.Mathlib.Text as Text
use Prim.Native.String.{count}
use inventra.Prelude.{ℕ, String, Bool, true, false, not, ◌&&◌, Option, none, some, List, ◌==◌, leb}
use inventra.Prelude.Int.{ℤ, pos, negsuc, ltb_ℤ}
use inventra.Catalog.Models.{Category, Supplier, Product}
use inventra.Catalog.Products.{active_products}
use inventra.Http.{Response, respond, product_data}
use inventra.Session.{
  Action, Db, pure, gets, or_raise, raise_unless, modify, not_found, validation_error, ◌>>=◌, ◌>>◌,
}
use inventra.Inventory.Stock.{is_integer_field}
use inventra.Inventory.Requests.{exists}
use inventra.Django.Env.{Env, draw}

-- `request.data`; `none` is an absent field, and `some none` is null
pub record ProductInput : Type 0 where
  pub sku : Option String
  pub name : Option String
  pub description : Option (Option String)
  pub cost_price : Option ℤ
  pub selling_price : Option ℤ
  pub current_stock : Option ℤ
  pub low_stock_threshold : Option ℤ
  pub category : Option ℕ
  pub supplier : Option ℕ
  pub is_active : Option Bool

abbrev pub or_else : {A : Type 0} → Option A → A → A
or_else none d = d
or_else (some a) d = a

-- a field that is required unless `partial`, and one that is optional
abbrev pub is_required : {A : Type 0} → Bool → (A → Bool) → Option A → Bool
is_required partial test none = partial
is_required partial test (some a) = test a

abbrev pub is_optional : {A : Type 0} → (A → Bool) → Option A → Bool
is_optional test none = true
is_optional test (some a) = test a

abbrev pub is_text : ℕ → String → Bool
is_text max_length text = leb 1 (count text) && leb (count text) max_length

-- `null=True, blank=True`
abbrev pub is_text_or_null : ℕ → Option String → Bool
is_text_or_null max_length none = true
is_text_or_null max_length (some text) = leb (count text) max_length

-- `DecimalField(max_digits=10, decimal_places=2)`, in cents
unfoldable pub is_decimal : ℤ → Bool
is_decimal c = ltb_ℤ (negsuc 9999999999) c && ltb_ℤ c (pos 10000000000)

module _ (env : Env) where
  -- the `UniqueValidator` of `sku`: no other product has it
  unfoldable pub is_free_sku : Option ℕ → List Product → String → Bool
  is_free_sku instance products sku = not (
      exists env.orm.products
        (λ (p : Product).
          elim instance [ none ↦ true | some k ↦ not (p.id == k) ] && Text.◌==◌ p.sku sku)
        products)

  -- `is_valid` of the serializer; `instance` is the product that is updated
  unfoldable pub is_valid : Bool → Option ℕ → ProductInput → Db → Bool
  unfolding is_free_sku is_decimal
  is_valid partial instance input db =
      is_required partial (λ sku. is_text 100 sku && is_free_sku instance db.products sku) input.sku
      && (is_required partial (is_text 255) input.name
          && (is_optional (is_text_or_null 2000) input.description
              && (is_required partial is_decimal input.cost_price
                  && (is_required partial is_decimal input.selling_price
                      && (is_optional is_integer_field input.current_stock
                          && (is_optional is_integer_field input.low_stock_threshold
                              && (is_required partial
                                    (λ k.
                                      exists env.orm.categories (λ (c : Category). c.id == k)
                                        db.categories)
                                    input.category
                                  && is_required partial
                                      (λ k.
                                        exists env.orm.suppliers (λ (s : Supplier). s.id == k)
                                          db.suppliers)
                                      input.supplier)))))))

  -- the assignments of `ModelSerializer.update`
  abbrev pub assigned : ProductInput → ℕ → Product → Product
  assigned input now instance = record instance {
    sku = or_else input.sku instance.sku;
    name = or_else input.name instance.name;
    description = or_else input.description instance.description;
    cost_price = or_else input.cost_price instance.cost_price;
    selling_price = or_else input.selling_price instance.selling_price;
    current_stock = or_else input.current_stock instance.current_stock;
    low_stock_threshold = or_else input.low_stock_threshold instance.low_stock_threshold;
    category = or_else input.category instance.category;
    supplier = or_else input.supplier instance.supplier;
    is_active = or_else input.is_active instance.is_active;
    updated_at = now;
  }

  -- `instance.save()`: all columns of the instance
  unfoldable pub save_product : Product → Action Unit
  save_product instance = modify λ db. record db {
    products = env.orm.products.update instance.id (λ r. record instance { id = r.id }) db.products;
  }

  -- a row with the defaults of the model, before the serializer's values
  abbrev pub blank_product : ℕ → ℕ → Product
  blank_product id now = record {
    id = id;
    sku = "";
    name = "";
    description = none;
    cost_price = pos 0;
    selling_price = pos 0;
    current_stock = pos 0;
    low_stock_threshold = pos 0;
    category = 0;
    supplier = 0;
    is_active = true;
    created_at = now;
    updated_at = now;
    created_by = none;
  }

  -- `POST /products/`
  unfoldable pub create_product : ProductInput → Action Response
  unfolding is_valid draw
  create_product input = do
    db ← gets (λ s. s.db)
    raise_unless (is_valid false none input db) validation_error
    id ← draw env
    now ← gets (λ s. s.now)
    let product = assigned input now (blank_product id now)
    modify λ db. record db { products = env.orm.products.insert product db.products }
    pure (respond 201 (product_data product))

  -- `PUT /products/{pk}/`, and `PATCH` with `partial` set
  unfoldable pub update_product : Bool → ℕ → ProductInput → Action Response
  unfolding is_valid save_product active_products
  update_product partial pk input = do
    found ← gets (λ s. env.orm.products.get pk (active_products env s.products))
    instance ← or_raise found not_found
    db ← gets (λ s. s.db)
    raise_unless (is_valid partial (some instance.id) input db) validation_error
    now ← gets (λ s. s.now)
    let product = assigned input now instance
    save_product product
    pure (respond 200 (product_data product))
