-- ===== src/Notifications/Models.antt =====
-- apps/notifications/models.py, and the texts of the messages as data: a constructor for each
-- format string, with the values that it is filled with.
use inventra.Prelude.{ℕ, String, Bool, Option}
use inventra.Prelude.Int.{ℤ}

pub data NotificationType : Type 0 where
  low_stock out_of_stock purchase_completed sale_completed reconciliation_mismatch :
      NotificationType

pub data Message : Type 0 where
  -- "{name} ({sku}) is out of stock"
  is_out_of_stock : String → String → Message
  -- "{name} ({sku}) is low on stock ({current_stock} left)"
  is_low_on_stock : String → String → ℤ → Message
  -- "Purchase order {id} has been received"
  has_been_received : ℕ → Message
  -- "Sales order {id} has been completed"
  has_been_completed : ℕ → Message
  -- "Ledger reconciliation found {n} product(s) with a stock/ledger mismatch"
  found_mismatches : ℕ → Message

pub record Notification : Type 0 where
  pub id : ℕ
  pub user : ℕ
  pub type : NotificationType
  pub message : Message
  pub reference_id : Option ℕ
  pub is_read : Bool
  pub created_at : ℕ
