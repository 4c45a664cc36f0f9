-- ===== src/Accounts/Escalation.antt =====
-- What a request by somebody who is no admin can change of the users.
use text.Mathlib.Text as Text
use inventra.Prelude.{
  String, ◌≡◌, refl, ◌∙◌, inl, inr, false, Option, none, some, sum_by, Bool-cases, arith, ap,
}
use inventra.Prelude.Int.{ℤ, pos, zero-+ℤ}
use inventra.Accounts.Models.{employee, User}
use inventra.Accounts.Permissions.{is_admin}
use inventra.Accounts.Users.{
  Fields, RegisterInput, ExtraFields, is_taken, new_user, or_default, create_user, validate,
  register,
}
use inventra.Accounts.Routes.{
  Request, register_request, me_request, retrieve_request, create_request, update_request,
  assign_role_request, reset_password_request, enable_request, destroy_request, admins_only, handle,
}
use inventra.Session.{Session}
use inventra.Session.Outcome.{bind_ends}
use inventra.Django.Env.{Env}

module _ (env : Env) (fields : Fields) where
  validate-reads : (input : RegisterInput) (s : Session) → (validate env fields input s).1 ≡ s
  unfolding validate
  validate-reads input s = ground arith

  module _ (w : User → ℤ) (blind : (u : User) → u.role ≡ employee → w u ≡ pos 0) where
    create_user-employee :
        (email : String) (password : Option String) (extra : ExtraFields) (s : Session)
        → extra.role ≡ some employee
        → sum_by w ((create_user env fields email password extra s).1).users ≡ sum_by w s.users
    unfolding create_user
    create_user-employee email password extra s e = elim (Bool-cases (Text.◌==◌ email "")) [
      | inl empty ↦ rw empty refl
      | inr given ↦
          elim (Bool-cases (is_taken env fields none (fields.normalize_email email) s.users)) [
            | inl taken ↦ rw (given, taken) refl
            | inr free ↦
                let row = new_user env fields (env.uuid4 s.draws) s.now email password extra in
                rw
                  (
                    given,
                    free,
                    env.orm.users.sum-insert w row s.users,
                    blind row (ap (λ r. or_default r employee) e),
                  )
                  (zero-+ℤ (sum_by w s.users))
          ]
    ]

    register-blind :
        (input : RegisterInput) (s : Session)
        → sum_by w ((register env fields input s).1).users ≡ sum_by w s.users
    unfolding register
    register-blind input s =
        bind_ends (λ t. sum_by w t.users ≡ sum_by w s.users) (validate env fields input) _ s
          (ap (λ t. sum_by w t.users) (validate-reads input s))
          λ d t h.
            let extra : ExtraFields = record {
              full_name = some d.full_name;
              role = some employee;
              is_staff = none;
              is_superuser = none;
              created_by = none;
            } in
            bind_ends (λ t. sum_by w t.users ≡ sum_by w s.users)
              (create_user env fields d.email (some d.password) extra) _ t
              (create_user-employee d.email (some d.password) extra t refl ∙ h) λ _ _ h'. h'

    admins_only-refuses :
        (user : Option User) (asked : Request) (s : Session)
        → is_admin user ≡ false
        → sum_by w ((admins_only env fields user asked s).1).users ≡ sum_by w s.users
    admins_only-refuses none asked s denied = refl
    admins_only-refuses (some user) asked s denied = rw denied refl

    -- A request by somebody who is no admin, authenticated or not, leaves every sum over the users
    -- as it was in which employees count for nothing.
    pub handle_unprivileged :
        (user : Option User) (asked : Request) (s : Session)
        → is_admin user ≡ false
        → sum_by w ((handle env fields user asked s).1).users ≡ sum_by w s.users
    unfolding handle
    handle_unprivileged user (register_request input) s denied = register-blind input s
    handle_unprivileged none me_request s denied = refl
    handle_unprivileged (some user) me_request s denied = refl
    handle_unprivileged user (retrieve_request pk) s denied =
        admins_only-refuses user (retrieve_request pk) s denied
    handle_unprivileged user (create_request input role) s denied =
        admins_only-refuses user (create_request input role) s denied
    handle_unprivileged user (update_request partial pk full_name email) s denied =
        admins_only-refuses user (update_request partial pk full_name email) s denied
    handle_unprivileged user (assign_role_request pk role) s denied =
        admins_only-refuses user (assign_role_request pk role) s denied
    handle_unprivileged user (reset_password_request pk password) s denied =
        admins_only-refuses user (reset_password_request pk password) s denied
    handle_unprivileged user (enable_request pk) s denied =
        admins_only-refuses user (enable_request pk) s denied
    handle_unprivileged user (destroy_request pk) s denied =
        admins_only-refuses user (destroy_request pk) s denied
