-- ===== src/Migration/Runner/Crashes.antt =====
-- What an iteration of infra/runners/migration_runner/runner.py leaves behind when it raises.
use odoo_custom.Prelude.{ℕ, ◌≡◌, none, All}
use odoo_custom.Prelude.Text.{Text}
use odoo_custom.Migration.Schema.{running, Job, Db, JobRow}
use odoo_custom.Migration.Runner.Events.{World, State, Turn, Point}
use odoo_custom.Migration.Runner.Rule.{Rule}

-- Every row named `k` is running.
abbrev pub IsRunning : ℕ → Db → Type 0
IsRunning k db = All (λ (j : Job). j.id ≡ k → j.status ≡ running) db.jobs

-- The other sessions leave a running job running.
abbrev pub KeepsRunning : ℕ → (Db → Db) → Type 0
KeepsRunning k f = (d : Db) → IsRunning k d → IsRunning k (f d)

pub record IsLeftRunning (w : World) (job : JobRow) : Type 0 where
  pub others_keep : (p : Point) → KeepsRunning job.id (w.others p)

module _ (w : World) (job : JobRow) (left : IsLeftRunning w job) where
  -- If the iteration raises from here on, a job that is running stays so.
  abbrev StaysRunning : State → Turn → Type 0
  StaysRunning s t = IsRunning job.id s.db → t.outcome ≡ none → IsRunning job.id t.state.db
