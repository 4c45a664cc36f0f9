-- ===== src/Inventory/Sales/Lines.antt =====
-- The first loop of `complete`: it reads, and its lines are the products as they are stored.
use inventra.Prelude.{
  ℕ, ◌≡◌, ◌≢◌, refl, inl, inr, Bool-cases, some, List, [], ◌∷◌, map, All, arith, ◌⊎◌,
}
use inventra.Prelude.Int.{ℤ, ◌≤ℤ◌, ltb_ℤ}
use inventra.Catalog.Models.{Product}
use inventra.Inventory.Models.{SalesOrderItem}
use inventra.Inventory.Stock.{set_stock}
use inventra.Inventory.Stock.Rules.{get_product_bind}
use inventra.Inventory.Ledger.{get-set_stock}
use inventra.Inventory.Sales.Complete.{check_items, add_line}
use inventra.Http.{Response}
use inventra.Session.{Session, pure}
use inventra.Session.Outcome.{Returns, bind-Returns}
use inventra.Django.Env.{Env}

abbrev pub Line : Type 0
Line = SalesOrderItem × Product

-- no two of the lines are of the same product
abbrev pub IsDistinct : List SalesOrderItem → Type 0
IsDistinct [] = Unit
IsDistinct (i ∷ is) = All (λ (j : SalesOrderItem). j.product ≢ i.product) is × IsDistinct is

abbrev pub IsCovered : List Line → Type 0
IsCovered = All (λ (l : Line). l.0.quantity ≤ℤ l.1.current_stock)

module _ (env : Env) where
  -- each line holds its product as the table has it
  abbrev pub IsCurrent : List Product → List Line → Type 0
  IsCurrent products = All (λ (l : Line). env.orm.products.get l.0.product products ≡ some l.1)

  abbrev pub IsChecked : List SalesOrderItem → Session → Response ⊎ List Line → Session → Type 0
  IsChecked items s (inl response) t = t ≡ s
  IsChecked items s (inr lines) t =
      (t ≡ s) × (map (λ l. l.0) lines ≡ items) × IsCurrent s.products lines × IsCovered lines

  add_line-IsChecked :
      (item : SalesOrderItem) (p : Product) (items : List SalesOrderItem) (s t : Session)
      (r : Response ⊎ List Line)
      → env.orm.products.get item.product s.products ≡ some p
      → item.quantity ≤ℤ p.current_stock
      → IsChecked items s r t
      → IsChecked (item ∷ items) s (add_line (item, p) r) t
  add_line-IsChecked item p items s t (inl response) found enough h = h
  add_line-IsChecked item p items s t (inr lines) found enough (same, of, current, covered) =
      (same, cc, (found, current), (enough, covered))

  pub check_items-IsChecked :
      (items : List SalesOrderItem) (s : Session)
      → Returns (IsChecked items s) (check_items env items s)
  unfolding check_items
  check_items-IsChecked [] s = (refl, refl, tt, tt)
  check_items-IsChecked (item ∷ items) s =
      get_product_bind (IsChecked (item ∷ items) s) env item.product _ s λ p found.
        elim (Bool-cases (ltb_ℤ p.current_stock item.quantity)) [
          | inl short ↦ rw short refl
          | inr enough ↦ rw enough (
              bind-Returns (IsChecked items s) (IsChecked (item ∷ items) s) (check_items env items)
                (λ lines. pure (add_line (item, p) lines)) s (check_items-IsChecked items s)
                λ r t h. add_line-IsChecked item p items s t r found (ground arith) h)
        ]

  -- writing one product's stock leaves the lines of the others as the table has them
  pub update-IsCurrent :
      (j : ℕ) (v : ℤ) (products : List Product) (lines : List Line)
      → All (λ (l : Line). l.0.product ≢ j) lines
      → IsCurrent products lines
      → IsCurrent (env.orm.products.update j (set_stock v) products) lines
  update-IsCurrent j v products [] ne h = tt
  update-IsCurrent j v products (l ∷ lines) ne h = (
    ground (arith, get-set_stock env j l.0.product v products),
    update-IsCurrent j v products lines ne.1 h.1,
  )
