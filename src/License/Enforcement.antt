-- ===== src/License/Enforcement.antt =====
-- custom-addons/saas_license_gate/models/enforcement.py: which writes pass the guard.
use odoo_custom.Prelude.{ℕ, Bool, true, false, ◌&&◌, if◌then◌else◌}
use odoo_custom.Prelude.Text.{Text, codes, text_eq}
use odoo_custom.License.Gate.{Params, Libraries, current_status}

-- The models that a guard stands before.
pub data Guarded : Type 0 where
  account_move sale_order stock_picking : Guarded

-- `_LICENSE_GRACE_WRITABLE`
abbrev pub grace_writable : Guarded → Bool
grace_writable account_move = true
grace_writable sale_order = false
grace_writable stock_picking = false

-- `_check_license_write_allowed`: whether it returns, and does not raise the UserError.
unfoldable pub write_allowed : Guarded → Text → Bool
write_allowed m status =
    if text_eq status (codes "active")
    then true
    else text_eq status (codes "grace") && grace_writable m

-- A `create` or `write` on a model, at the time `now`.
unfoldable pub passes : Libraries → Guarded → ℕ → Params → Bool
passes lib m now p = write_allowed m (current_status lib now p).0
