-- ===== src/Migration/Window/Opening.antt =====
-- When a closed maintenance window of infra/runners/migration_runner/window.py is said to open next.
use odoo_custom.Prelude.{ℕ, ◌<◌, ◌≡◌, true, false, some, arith}
use odoo_custom.Migration.Window.{
  Calendar, IsForward, WindowEvaluator, is_open, next_firing, next_open,
}

module _ (c : Calendar) (e : WindowEvaluator) (now : ℕ)
    (valid : c.is_valid_cron e.cron ≡ true) where
  -- A closed window is said to open next at the next firing of its cron expression, which lies in the
  -- future; an override never decides it.
  pub next_open_closed :
      IsForward c
      → is_open c e now ≡ some false
      → (next_open c e now ≡ some (next_firing c e now)) × (now < next_firing c e now)
  unfolding next_open is_open
  next_open_closed forward closed = (ground arith, forward.get_next_after e.cron e.tz now valid)
