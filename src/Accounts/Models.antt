-- ===== src/Accounts/Models.antt =====
-- apps/accounts/models.py: the role names and the user row. Identifiers (UUIDs in the program) are
-- only compared, so they are natural numbers everywhere in the library.
use inventra.Prelude.{ℕ, String, Bool, Option}

pub data RoleName : Type 0 where
  admin manager employee : RoleName

pub record User : Type 0 where
  pub id : ℕ
  pub email : String
  pub full_name : String
  pub password : ℕ
  pub role : RoleName
  pub is_active : Bool
  pub is_staff : Bool
  pub is_superuser : Bool
  pub created_at : ℕ
  pub updated_at : ℕ
  pub created_by : Option ℕ
