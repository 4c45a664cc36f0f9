-- ===== src/Catalog/Models.antt =====
-- apps/catalog/models.py: the rows of the catalog. Times are numbers; prices are whole cents
-- (`DecimalField(decimal_places=2)`).
use inventra.Prelude.{ℕ, String, Bool, Option}
use inventra.Prelude.Int.{ℤ}

pub record Category : Type 0 where
  pub id : ℕ
  pub name : String
  pub description : Option String
  pub is_active : Bool
  pub created_at : ℕ
  pub updated_at : ℕ
  pub created_by : Option ℕ

pub record Supplier : Type 0 where
  pub id : ℕ
  pub name : String
  pub email : String
  pub phone : Option String
  pub address : Option String
  pub is_active : Bool
  pub created_at : ℕ
  pub updated_at : ℕ
  pub created_by : Option ℕ

pub record Product : Type 0 where
  pub id : ℕ
  pub sku : String
  pub name : String
  pub description : Option String
  pub cost_price : ℤ
  pub selling_price : ℤ
  pub current_stock : ℤ
  pub low_stock_threshold : ℤ
  pub category : ℕ
  pub supplier : ℕ
  pub is_active : Bool
  pub created_at : ℕ
  pub updated_at : ℕ
  pub created_by : Option ℕ
