-- ===== src/Core/Checks.antt =====
-- apps/core/checks.py: the system check that stops a deployment with the row locks switched off. An
-- error is the number of its identifier `core.E001`.
use inventra.Prelude.{ℕ, Bool, true, false, ◌||◌, ◌≡◌, List, [], ◌∷◌, if◌then◌else◌, arith}

-- the settings INVENTORY_LOCKING_ENABLED and DEBUG
pub record Settings : Type 0 where
  pub inventory_locking_enabled : Bool
  pub debug : Bool

unfoldable pub locking_kill_switch_guard : Settings → List ℕ
locking_kill_switch_guard settings =
    if settings.inventory_locking_enabled || settings.debug then [] else 1 ∷ []

-- without DEBUG, settings that pass have the locks on
pub locking_kill_switch_guard-passed :
    (settings : Settings)
    → locking_kill_switch_guard settings ≡ []
    → settings.debug ≡ false
    → settings.inventory_locking_enabled ≡ true
unfolding locking_kill_switch_guard
locking_kill_switch_guard-passed settings passed production = ground arith
