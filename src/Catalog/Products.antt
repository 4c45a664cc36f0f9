-- ===== src/Catalog/Products.antt =====
-- apps/catalog/filters.py and views.py: the filter by stock status, the permissions of the
-- catalog's actions, and the soft delete of products.
use inventra.Prelude.{ℕ, Bool, false, not, ◌&&◌, Option, List}
use inventra.Prelude.Int.{pos, leb_ℤ, ltb_ℤ}
use inventra.Accounts.Models.{User}
use inventra.Accounts.Permissions.{is_any_role, is_manager_or_admin}
use inventra.Catalog.Models.{Product}
use inventra.Http.{Response, respond, no_content}
use inventra.Session.{Action, pure, gets, or_raise, modify, not_found, ◌>>=◌, ◌>>◌}
use inventra.Django.Env.{Env}

-- the value of `stock_status`; any other text is `other`
pub data StockStatus : Type 0 where
  out_of_stock low_stock in_stock other : StockStatus

-- `self.action`
pub data ViewAction : Type 0 where
  list retrieve create update partial_update destroy : ViewAction

abbrev pub is_out_of_stock : Product → Bool
is_out_of_stock p = leb_ℤ p.current_stock (pos 0)

abbrev pub is_low_on_stock : Product → Bool
is_low_on_stock p = ltb_ℤ (pos 0) p.current_stock && leb_ℤ p.current_stock p.low_stock_threshold

abbrev pub is_in_stock : Product → Bool
is_in_stock p = not (leb_ℤ p.current_stock p.low_stock_threshold)

-- whether the permission classes of `get_permissions` let the user take the action
unfoldable pub get_permissions : ViewAction → Option User → Bool
unfolding is_any_role is_manager_or_admin
get_permissions list user = is_any_role user
get_permissions retrieve user = is_any_role user
get_permissions create user = is_manager_or_admin user
get_permissions update user = is_manager_or_admin user
get_permissions partial_update user = is_manager_or_admin user
get_permissions destroy user = is_manager_or_admin user

module _ (env : Env) where
  unfoldable pub filter_stock_status : StockStatus → List Product → List Product
  filter_stock_status out_of_stock queryset = env.orm.products.filter is_out_of_stock queryset
  filter_stock_status low_stock queryset = env.orm.products.filter is_low_on_stock queryset
  filter_stock_status in_stock queryset = env.orm.products.filter is_in_stock queryset
  filter_stock_status other queryset = queryset

  -- the `queryset` of `ProductViewSet`
  unfoldable pub active_products : List Product → List Product
  active_products products = env.orm.products.filter (λ (p : Product). p.is_active) products

  -- `ProductViewSet.perform_destroy`
  unfoldable pub perform_destroy : Product → Action Unit
  perform_destroy instance = modify λ db. record db {
    products =
        env.orm.products.update instance.id (λ r. record r { is_active = false }) db.products;
  }

  -- `DELETE /products/{pk}/`
  unfoldable pub destroy_product : ℕ → Action Response
  unfolding active_products perform_destroy
  destroy_product pk = do
    found ← gets (λ s. env.orm.products.get pk (active_products s.products))
    product ← or_raise found not_found
    perform_destroy product
    pure (respond 204 no_content)
