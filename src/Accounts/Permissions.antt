-- ===== src/Accounts/Permissions.antt =====
-- apps/accounts/permissions.py. The user of a request is `none` if the request is not
-- authenticated.
use inventra.Prelude.{Bool, true, false, Option, none, some}
use inventra.Accounts.Models.{RoleName, admin, manager, employee, User}

abbrev pub is_admin_role : RoleName → Bool
is_admin_role admin = true
is_admin_role manager = false
is_admin_role employee = false

abbrev pub is_manager_or_admin_role : RoleName → Bool
is_manager_or_admin_role admin = true
is_manager_or_admin_role manager = true
is_manager_or_admin_role employee = false

-- `IsAdmin.has_permission`
unfoldable pub is_admin : Option User → Bool
is_admin none = false
is_admin (some user) = is_admin_role user.role

-- `IsManagerOrAdmin.has_permission`
unfoldable pub is_manager_or_admin : Option User → Bool
is_manager_or_admin none = false
is_manager_or_admin (some user) = is_manager_or_admin_role user.role

-- `IsAnyRole.has_permission`
unfoldable pub is_any_role : Option User → Bool
is_any_role none = false
is_any_role (some user) = true
