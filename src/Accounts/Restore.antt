-- ===== src/Accounts/Restore.antt =====
-- Disabling a user and enabling it again.
use inventra.Prelude.{
  ℕ, List, ◌≡◌, refl, sym, ap, ◌∙◌, true, false, some, Bool-cases, inl, inr, ==_refl, eq_of_==,
  ◌==◌,
}
use inventra.Accounts.Models.{User}
use inventra.Accounts.Users.{Fields, get_user, save, set_active, enable, destroy}
use inventra.Http.{respond, user_data, read_user}
use inventra.Session.{Session, ok}
use inventra.Django.Env.{Env}

module _ (env : Env) (fields : Fields) where
  restored : (u : User) → u.is_active ≡ true → record u { is_active = true } ≡ u
  restored u active = ap (λ b. record u { is_active = b }) (sym active)

  -- the table after both updates
  users_restored :
      (pk : ℕ) (u : User) (users : List User)
      → env.orm.users.get pk users ≡ some u
      → u.is_active ≡ true
      → (k : ℕ)
      → env.orm.users.get k (
          env.orm.users.update u.id
            (λ r. record r { is_active = true })
            (env.orm.users.update u.id (λ r. record r { is_active = false }) users))
        ≡ env.orm.users.get k users
  users_restored pk u users found active k =
      let key : u.id ≡ pk = env.orm.users.pk-get pk users u found in
      let disabled = env.orm.users.update u.id (λ r. record r { is_active = false }) users in
      let first =
        env.orm.users.get-update u.id (λ r. record r { is_active = false }) users k (λ r. refl) in
      let second =
        env.orm.users.get-update u.id (λ r. record r { is_active = true }) disabled k (λ r. refl) in
      elim (Bool-cases (k == u.id)) [
        | inr other ↦ second ∙ rw other (first ∙ rw other refl)
        | inl same ↦
            let mine : env.orm.users.get k users ≡ some u =
              ap (λ j. env.orm.users.get j users) (eq_of_== k u.id same ∙ key) ∙ found in
            let off : env.orm.users.get k disabled ≡ some (record u { is_active = false }) =
              first ∙ rw (same, mine) refl in
            second ∙ rw (same, off) (ap some (restored u active) ∙ sym mine)
      ]

  -- Disabling an active user of the table and enabling the same user again answers 200 twice, the
  -- second time with the user as before, and leaves every user that the table gives as it was.
  pub destroy-enable :
      (pk : ℕ) (u : User) (s : Session)
      → env.orm.users.get pk s.users ≡ some u
      → u.is_active ≡ true
      → let (answer, t) = destroy env fields pk s in
        let (answer', t') = enable env fields pk t in
        (answer ≡ ok (respond 200 (user_data (read_user (record u { is_active = false })))))
        × (answer' ≡ ok (respond 200 (user_data (read_user u))))
        × ((k : ℕ) → env.orm.users.get k t'.users ≡ env.orm.users.get k s.users)
  unfolding destroy enable set_active get_user save
  destroy-enable pk u s found active =
      let here : (pk == u.id) ≡ true = rw (env.orm.users.pk-get pk s.users u found) (==_refl pk) in
      let disabled = env.orm.users.update u.id (λ r. record r { is_active = false }) s.users in
      let found' : env.orm.users.get pk disabled ≡ some (record u { is_active = false }) =
        env.orm.users.get-update u.id (λ r. record r { is_active = false }) s.users pk (λ r. refl)
        ∙ rw (here, found) refl in
      (
        rw found refl,
        rw (found, found')
            (ap (λ v. ok (respond 200 (user_data (read_user v)))) (restored u active)),
        λ k. rw (found, found') (users_restored pk u s.users found active k),
      )
