-- ===== src/Accounts/Users.antt =====
-- apps/accounts/views.py and serializers.py, with `UserManager` of models.py. The checks of single
-- fields, the normal form of an address and the hash of a password are Django's, so a parameter.
use text.Mathlib.Text as Text
use inventra.Prelude.{ℕ, String, Bool, true, false, not, ◌&&◌, Option, none, some, List, ◌==◌}
use inventra.Accounts.Models.{RoleName, admin, employee, User}
use inventra.Http.{Response, respond, user_data, read_user}
use inventra.Session.{
  Action, pure, raise, gets, or_raise, raise_if, raise_unless, modify, not_found, validation_error,
  value_error, integrity_error, ◌>>=◌, ◌>>◌,
}
use inventra.Django.Env.{Env, draw}

pub record Fields : Type 0 where
  -- the validators of `EmailField` and of `CharField(max_length=255)`
  pub is_email : String → Bool
  pub is_full_name : String → Bool
  -- `min_length=8` with `validate_password`
  pub is_password : String → Bool
  pub normalize_email : String → String
  -- `set_password`, with `None` for an unusable password
  pub hash : Option String → ℕ

-- the `**extra_fields` of `UserManager`; `none` is an absent one
pub record ExtraFields : Type 0 where
  pub full_name : Option String
  pub role : Option RoleName
  pub is_staff : Option Bool
  pub is_superuser : Option Bool
  pub created_by : Option ℕ

-- `request.data`; `none` is an absent field
pub record RegisterInput : Type 0 where
  pub email : Option String
  pub password : Option String
  pub full_name : Option String

pub data RoleInput : Type 0 where
  absent : RoleInput
  choice : RoleName → RoleInput
  no_choice : RoleInput

-- `validated_data` of `RegisterSerializer`
pub record Registration : Type 0 where
  pub email : String
  pub password : String
  pub full_name : String

abbrev pub or_default : {A : Type 0} → Option A → A → A
or_default none d = d
or_default (some a) d = a

-- `extra_fields.setdefault(...)`
abbrev pub setdefault : {A : Type 0} → Option A → A → Option A
setdefault o d = some (or_default o d)

abbrev pub optional_role : RoleInput → Action (Option RoleName)
optional_role RoleInput.absent = pure none
optional_role (RoleInput.choice role) = pure (some role)
optional_role RoleInput.no_choice = raise validation_error

abbrev pub required_role : RoleInput → Action RoleName
required_role RoleInput.absent = raise validation_error
required_role (RoleInput.choice role) = pure role
required_role RoleInput.no_choice = raise validation_error

module _ (env : Env) (fields : Fields) where
  -- whether a user other than the given one has the address
  unfoldable pub is_taken : Option ℕ → String → List User → Bool
  is_taken instance email users =
      let others : User → Bool = λ u. elim instance [ none ↦ true | some k ↦ not (u.id == k) ] in
      elim (env.orm.users.filter (λ u. others u && Text.◌==◌ u.email email) users) [
        | List.[] ↦ false
        | List.◌∷◌ _ _ ↦ true
      ]

  abbrev pub new_user : ℕ → ℕ → String → Option String → ExtraFields → User
  new_user id now email password extra = record {
    id = id;
    email = fields.normalize_email email;
    full_name = or_default extra.full_name "";
    password = fields.hash password;
    role = or_default extra.role employee;
    is_active = true;
    is_staff = or_default extra.is_staff false;
    is_superuser = or_default extra.is_superuser false;
    created_at = now;
    updated_at = now;
    created_by = extra.created_by;
  }

  -- `UserManager.create_user`, with the defaults of the model and its unique address
  unfoldable pub create_user : String → Option String → ExtraFields → Action User
  unfolding draw
  create_user email password extra = do
    raise_if (Text.◌==◌ email "") value_error
    id ← draw env
    now ← gets (λ s. s.now)
    let user = new_user id now email password extra
    taken ← gets (λ s. is_taken none user.email s.users)
    raise_if taken integrity_error
    modify λ db. record db { users = env.orm.users.insert user db.users }
    pure user

  unfoldable pub create_superuser : String → Option String → ExtraFields → Action User
  unfolding create_user
  create_superuser email password extra = create_user email password (record {
    full_name = setdefault extra.full_name "Admin";
    role = setdefault extra.role admin;
    is_staff = setdefault extra.is_staff true;
    is_superuser = setdefault extra.is_superuser true;
    created_by = extra.created_by;
  })

  -- the part of `is_valid(raise_exception=True)` that both serializers of new users share
  unfoldable pub validate : RegisterInput → Action Registration
  unfolding is_taken
  validate input = do
    email ← or_raise input.email validation_error
    password ← or_raise input.password validation_error
    full_name ← or_raise input.full_name validation_error
    taken ← gets (λ s. is_taken none email s.users)
    raise_unless
        (fields.is_email email
          && (not taken && (fields.is_password password && fields.is_full_name full_name)))
        validation_error
    pure (record { email = email; password = password; full_name = full_name })

  -- `RegisterView.create` with `RegisterSerializer.create`
  unfoldable pub register : RegisterInput → Action Response
  unfolding validate create_user
  register input = do
    validated_data ← validate input
    user ← create_user validated_data.email (some validated_data.password) (record {
      full_name = some validated_data.full_name;
      role = some employee;
      is_staff = none;
      is_superuser = none;
      created_by = none;
    })
    pure (respond 201 (user_data (read_user user)))

  -- `UserViewSet.create` with `UserCreateSerializer.create`
  unfoldable pub create : User → RegisterInput → RoleInput → Action Response
  unfolding validate create_user
  create actor input role_input = do
    validated_data ← validate input
    role ← optional_role role_input
    user ← create_user validated_data.email (some validated_data.password) (record {
      full_name = some validated_data.full_name;
      role = role;
      is_staff = none;
      is_superuser = none;
      created_by = some actor.id;
    })
    pure (respond 201 (user_data (read_user user)))

  -- `self.get_object()`
  unfoldable pub get_user : ℕ → Action User
  get_user pk = do found ← gets (λ s. env.orm.users.get pk s.users); or_raise found not_found

  -- `user.save(update_fields=[...])` with one changed column
  unfoldable pub save : ℕ → (User → User) → Action Unit
  save pk column = modify λ db. record db { users = env.orm.users.update pk column db.users }

  -- a required field, or an optional one under `partial`
  abbrev pub valid_or_absent : Bool → (String → Bool) → Option String → Bool
  valid_or_absent partial test none = partial
  valid_or_absent partial test (some v) = test v

  -- `UserViewSet.update`, and `partial_update` with `partial` set; `serializer.save()` saves all
  -- columns of the instance
  unfoldable pub update : Bool → ℕ → Option String → Option String → Action Response
  unfolding get_user is_taken save
  update partial pk full_name email = do
    found ← get_user pk
    users ← gets (λ s. s.users)
    raise_unless (valid_or_absent partial fields.is_full_name full_name) validation_error
    raise_unless
        (valid_or_absent partial (λ e. fields.is_email e && not (is_taken (some found.id) e users))
          email)
        validation_error
    now ← gets (λ s. s.now)
    let user : User = record found {
      full_name = or_default full_name found.full_name;
      email = or_default email found.email;
      updated_at = now;
    }
    save found.id (λ r. record user { id = r.id })
    pure (respond 200 (user_data (read_user user)))

  unfoldable pub assign_role : ℕ → RoleInput → Action Response
  unfolding get_user save
  assign_role pk role_input = do
    found ← get_user pk
    role ← required_role role_input
    save found.id (λ r. record r { role = role })
    pure (respond 200 (user_data (read_user (record found { role = role }))))

  unfoldable pub reset_password : ℕ → Option String → Action Response
  unfolding get_user save
  reset_password pk input = do
    found ← get_user pk
    new_password ← or_raise input validation_error
    raise_unless (fields.is_password new_password) validation_error
    let password = fields.hash (some new_password)
    save found.id (λ r. record r { password = password })
    pure (respond 200 (user_data (read_user found)))

  -- `enable`, and `destroy`, which is a soft delete
  unfoldable pub set_active : Bool → ℕ → Action Response
  unfolding get_user save
  set_active is_active pk = do
    found ← get_user pk
    save found.id (λ r. record r { is_active = is_active })
    pure (respond 200 (user_data (read_user (record found { is_active = is_active }))))

  unfoldable pub enable : ℕ → Action Response
  unfolding set_active
  enable pk = set_active true pk

  unfoldable pub destroy : ℕ → Action Response
  unfolding set_active
  destroy pk = set_active false pk

  unfoldable pub retrieve : ℕ → Action Response
  unfolding get_user
  retrieve pk = do user ← get_user pk; pure (respond 200 (user_data (read_user user)))
