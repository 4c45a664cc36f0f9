-- ===== src/Inventory/Returns/Replay.antt =====
-- A second `approve` of the same return.
use inventra.Prelude.{
  ℕ, ◌≡◌, refl, ◌⊎◌, inl, inr, true, Bool-cases, Option-cases, none, some, ◌==◌, ==_refl, ap, ◌∙◌,
}
use inventra.Prelude.Int.{◌+ℤ◌}
use inventra.Accounts.Models.{User}
use inventra.Inventory.Models.{Return, TransactionType, approved}
use inventra.Inventory.Stock.{set_stock}
use inventra.Inventory.Stock.Rules.{get_product_bind, move_bind}
use inventra.Inventory.Returns.{
  get_return, is_approved, finish_approve, approve_block, after_approve, approve,
}
use inventra.Inventory.Returns.Approve.{after_approve-IsReader}
use inventra.Http.{respond, detail, already_approved}
use inventra.Session.{Session, Db, ok}
use inventra.Session.Outcome.{Returns}
use inventra.Django.Env.{Env}
use inventra.Django.Atomic.{atomic_then}

module _ (env : Env) where
  -- the return is there, and it has been approved
  pub record IsApproved (pk : ℕ) (db : Db) : Type 0 where
    pub ret : Return
    pub found : env.orm.returns.get pk db.returns ≡ some ret
    pub is_closed : is_approved ret.status ≡ true

  approve_block-IsApproved :
      (user : User) (pk : ℕ) (s : Session)
      → Returns (λ _ t. (t.db ≡ s.db) ⊎ IsApproved pk t.db) (approve_block env user pk s)
  unfolding approve_block get_return finish_approve
  approve_block-IsApproved user pk s = elim (Option-cases (env.orm.returns.get pk s.returns)) [
    | inl e ↦ rw e tt
    | inr (ret, e) ↦ elim (Bool-cases (is_approved ret.status)) [
      | inl closed ↦ rw (e, closed) (inl refl)
      | inr open_ ↦
          rw (e, open_)
            (get_product_bind outcome env ret.product _ s λ p found.
              move_bind outcome env (set_stock (p.current_stock +ℤ ret.quantity) p) ret.quantity
                TransactionType.return (some ret.id) none user (λ _. finish_approve env user ret) s
                (inr (record { ret = close ret; found = written ret e; is_closed = refl })))
    ]
  ]
    where
      outcome : {A : Type 0} → A → Session → Type 0
      outcome _ t = (t.db ≡ s.db) ⊎ IsApproved pk t.db

      close : Return → Return
      close r = record r { status = approved; approved_by = some user.id }

      written :
          (ret : Return)
          → env.orm.returns.get pk s.returns ≡ some ret
          → env.orm.returns.get pk (env.orm.returns.update ret.id close s.returns)
            ≡ some (close ret)
      written ret e =
          let key : ret.id ≡ pk = env.orm.returns.pk-get pk s.returns ret e in
          let same : (pk == ret.id) ≡ true = ap (◌==◌ pk) key ∙ ==_refl pk in
          env.orm.returns.get-update ret.id close s.returns pk (λ r. refl) ∙ rw (same, e) refl

  approve-replayed :
      (user : User) (pk : ℕ) (s : Session)
      → IsApproved pk s.db
      → let (r, t) = approve env user pk s in
        (r ≡ ok (respond 409 (detail already_approved))) × (t.db ≡ s.db)
  unfolding approve approve_block get_return after_approve
  approve-replayed user pk s h =
      rw (env.atomic_lem _ (approve_block env user pk) s, h.found, h.is_closed) (refl, refl)

  -- Approving is idempotent: either a call leaves the tables as they were, or the same call again
  -- is refused with 409 and leaves the tables alone, whoever makes it.
  pub approve_twice :
      (user other : User) (pk : ℕ) (s : Session)
      → let (_, t) = approve env user pk s in
        let (r, u) = approve env other pk t in
        (t.db ≡ s.db) ⊎ ((r ≡ ok (respond 409 (detail already_approved))) × (u.db ≡ t.db))
  unfolding approve
  approve_twice user other pk s =
      elim (atomic_then (λ db. (db ≡ s.db) ⊎ IsApproved pk db) (after_approve env)
        (after_approve-IsReader env) env (approve_block env user pk) s (inl refl)
        (approve_block-IsApproved user pk s)) [
          | inl same ↦ inl same
          | inr closed ↦ inr (approve-replayed other pk _ closed)
        ]
