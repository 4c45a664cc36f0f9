-- ===== src/Inventory/Tasks.antt =====
-- The periodic tasks of apps/inventory/tasks.py: `reconcile_ledger` and `sweep_low_stock`.
pub mod Reconcile
pub mod Alerts
use inventra.Prelude.{
  ℕ, ◌+◌, Bool, true, false, not, ◌&&◌, Option, none, some, List, [], ◌∷◌, ◌++◌, map, ◌==◌, length,
  keep, if◌then◌else◌,
}
use inventra.Prelude.Int.{ℤ, pos, leb_ℤ, ltb_ℤ, eqb_ℤ}
use inventra.Catalog.Models.{Product}
use inventra.Notifications.Models.{
  NotificationType, low_stock, out_of_stock, purchase_completed, sale_completed,
  reconciliation_mismatch, Message, is_out_of_stock, is_low_on_stock, found_mismatches,
  Notification,
}
use inventra.Notifications.Services.{notify_admins_and_managers}
use inventra.Inventory.Models.{InventoryTransaction}
use inventra.Inventory.Stock.{signed_quantity}
use inventra.Inventory.Requests.{exists}
use inventra.Django.Table.{total_of}
use inventra.Session.{Action, pure, gets, ◌>>=◌, ◌>>◌}
use inventra.Django.Env.{Env}

-- the value that `reconcile_ledger` returns
pub record Reconciliation : Type 0 where
  pub checked : ℕ
  pub mismatched_count : ℕ
  pub mismatched_product_ids : List ℕ

-- the value that `sweep_low_stock` returns
pub record Sweep : Type 0 where
  pub candidates : ℕ
  pub flagged : ℕ

pub record Candidate : Type 0 where
  pub product : Product
  pub type : NotificationType
  pub message : Message

abbrev pub is_empty : {A : Type 0} → List A → Bool
is_empty [] = true
is_empty (x ∷ xs) = false

abbrev pub is_type : NotificationType → NotificationType → Bool
is_type low_stock low_stock = true
is_type out_of_stock out_of_stock = true
is_type purchase_completed purchase_completed = true
is_type sale_completed sale_completed = true
is_type reconciliation_mismatch reconciliation_mismatch = true
is_type _ _ = false

abbrev pub refers_to : ℕ → Option ℕ → Bool
refers_to k none = false
refers_to k (some j) = j == k

-- an unread notification of the type, about the product
abbrev pub is_alert : NotificationType → ℕ → Notification → Bool
is_alert ntype k n = is_type n.type ntype && (refers_to k n.reference_id && not n.is_read)

module _ (env : Env) where
  -- `ledger_totals`
  unfoldable pub ledger_totals : List InventoryTransaction → List (ℕ × ℤ)
  ledger_totals =
      env.orm.transactions.group_sum (λ (t : InventoryTransaction). t.product) signed_quantity

  unfoldable pub is_mismatched : List (ℕ × ℤ) → Product → Bool
  is_mismatched totals product = not (eqb_ℤ product.current_stock (total_of product.id totals))

  unfoldable pub reconcile_ledger : Action Reconciliation
  unfolding ledger_totals is_mismatched
  reconcile_ledger = do
    totals ← gets (λ s. ledger_totals s.transactions)
    products ← gets (λ s. s.products)
    let mismatched = keep (is_mismatched totals) products
    if is_empty mismatched
        then pure tt
        else notify_admins_and_managers env reconciliation_mismatch
            (found_mismatches (length mismatched)) none
    pure (record {
      checked = length products;
      mismatched_count = length mismatched;
      mismatched_product_ids = map (λ (p : Product). p.id) mismatched;
    })

  unfoldable pub out_of_stock_candidates : List Product → List Candidate
  out_of_stock_candidates products =
      map
        (λ (p : Product). record {
          product = p;
          type = out_of_stock;
          message = is_out_of_stock p.name p.sku;
        })
        (env.orm.products.filter (λ (p : Product). p.is_active && leb_ℤ p.current_stock (pos 0))
          products)

  unfoldable pub low_stock_candidates : List Product → List Candidate
  low_stock_candidates products =
      map
        (λ (p : Product). record {
          product = p;
          type = low_stock;
          message = is_low_on_stock p.name p.sku p.current_stock;
        })
        (env.orm.products.filter
          (λ (p : Product).
            p.is_active
            && (ltb_ℤ (pos 0) p.current_stock && leb_ℤ p.current_stock p.low_stock_threshold))
          products)

  -- one round of the loop: 1 if the product is flagged now, 0 if it has an unread alert already
  unfoldable pub flag : Candidate → Action ℕ
  flag c = do
    already_flagged ←
        gets (λ s. exists env.orm.notifications (is_alert c.type c.product.id) s.notifications)
    if already_flagged
        then pure 0
        else (do notify_admins_and_managers env c.type c.message (some c.product.id); pure 1)

  unfoldable pub flag_all : List Candidate → ℕ → Action ℕ
  flag_all [] flagged = pure flagged
  flag_all (c ∷ cs) flagged = do n ← flag c; flag_all cs (flagged + n)

  unfoldable pub sweep_low_stock : Action Sweep
  unfolding out_of_stock_candidates low_stock_candidates flag flag_all
  sweep_low_stock = do
    products ← gets (λ s. s.products)
    let candidates = out_of_stock_candidates products ++ low_stock_candidates products
    flagged ← flag_all candidates 0
    pure (record { candidates = length candidates; flagged = flagged })
