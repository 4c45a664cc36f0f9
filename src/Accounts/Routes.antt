-- ===== src/Accounts/Routes.antt =====
-- The routes of apps/accounts/urls.py: each endpoint behind the permission class of its view.
use inventra.Prelude.{ℕ, String, Bool, Option, none, some, if◌then◌else◌}
use inventra.Accounts.Models.{User}
use inventra.Accounts.Permissions.{is_admin}
use inventra.Accounts.Users.{
  Fields, RegisterInput, RoleInput, register, create, update, assign_role, reset_password, enable,
  destroy, retrieve,
}
use inventra.Http.{
  Response, respond, detail, not_authenticated, permission_denied, user_data, read_user,
}
use inventra.Session.{Action, pure}
use inventra.Django.Env.{Env}

-- the routes of apps/accounts/urls.py, less the library's own for tokens
pub data Request : Type 0 where
  register_request : RegisterInput → Request
  me_request : Request
  retrieve_request : ℕ → Request
  create_request : RegisterInput → RoleInput → Request
  update_request : Bool → ℕ → Option String → Option String → Request
  assign_role_request : ℕ → RoleInput → Request
  reset_password_request : ℕ → Option String → Request
  enable_request : ℕ → Request
  destroy_request : ℕ → Request

-- the answer to a request that the permission classes refuse
abbrev pub refuse : Option User → Action Response
refuse none = pure (respond 401 (detail not_authenticated))
refuse (some user) = pure (respond 403 (detail permission_denied))

module _ (env : Env) (fields : Fields) where
  -- `MeView`
  abbrev pub me : Option User → Action Response
  me none = refuse none
  me (some user) = pure (respond 200 (user_data (read_user user)))

  -- the actions of `UserViewSet`
  unfoldable pub users_view : User → Request → Action Response
  unfolding create update assign_role reset_password enable destroy retrieve
  users_view user (retrieve_request pk) = retrieve env fields pk
  users_view user (create_request input role) = create env fields user input role
  users_view user (update_request partial pk full_name email) =
      update env fields partial pk full_name email
  users_view user (assign_role_request pk role) = assign_role env fields pk role
  users_view user (reset_password_request pk password) = reset_password env fields pk password
  users_view user (enable_request pk) = enable env fields pk
  users_view user (destroy_request pk) = destroy env fields pk
  users_view user (register_request input) = register env fields input
  users_view user me_request = me (some user)

  abbrev pub admins_only : Option User → Request → Action Response
  admins_only none asked = refuse none
  admins_only (some user) asked =
      if is_admin (some user) then users_view user asked else refuse (some user)

  -- a request through its view, behind the permission class of that view
  unfoldable pub handle : Option User → Request → Action Response
  unfolding is_admin register users_view
  handle user (register_request input) = register env fields input
  handle user me_request = me user
  handle user (retrieve_request pk) = admins_only user (retrieve_request pk)
  handle user (create_request input role) = admins_only user (create_request input role)
  handle user (update_request partial pk full_name email) =
      admins_only user (update_request partial pk full_name email)
  handle user (assign_role_request pk role) = admins_only user (assign_role_request pk role)
  handle user (reset_password_request pk password) =
      admins_only user (reset_password_request pk password)
  handle user (enable_request pk) = admins_only user (enable_request pk)
  handle user (destroy_request pk) = admins_only user (destroy_request pk)
