-- ===== src/Migration/Runner/Retries.antt =====
-- Which exit codes infra/runners/migration_runner/runner.py retries, and how often.
use odoo_custom.Prelude.{ℕ, ◌+◌, ◌≤◌, ◌<◌, ◌≡◌, ◌≢◌, ◌⊎◌, ◌↔◌, some, arith, All}
use odoo_custom.Prelude.Int.{ℤ, pos, negsuc}
use odoo_custom.Prelude.Text.{Text}
use odoo_custom.Migration.Schema.{Job, Db, JobRow}
use odoo_custom.Migration.Heartbeat.{Beat}
use odoo_custom.Migration.Runner.Events.{
  World, done, failed, retry, State, Turn, Spawn, file_not_found, started, Point,
}
use odoo_custom.Migration.Runner.Parts.{classify_exit, max_retries_default}
use odoo_custom.Migration.Runner.Rule.{Rule}

-- Exit code 0 is done; codes 143 and 137 are retried while fewer than the allowed attempts have
-- been made; all else has failed, every negative code included, which is how Python reports a
-- process that was killed by a signal.
pub classify_exit_iff :
    (code : ℤ) (retries limit : ℕ)
    → ((classify_exit code retries limit ≡ done) ↔ (code ≡ pos 0))
      × ((classify_exit code retries limit ≡ retry)
          ↔ ((retries + 1 < limit) × ((code ≡ pos 143) ⊎ (code ≡ pos 137))))
      × ((classify_exit code retries limit ≡ failed)
          ↔ ((code ≢ pos 0) × ((limit ≤ retries + 1) ⊎ ((code ≢ pos 143) × (code ≢ pos 137)))))
unfolding classify_exit
classify_exit_iff (pos n) retries limit = (
  ((λ e. ground arith), (λ e. ground arith)),
  ((λ e. ground arith), (λ e. ground arith)),
  ((λ e. ground arith), (λ e. ground arith)),
)
classify_exit_iff (negsuc n) retries limit = (
  ((λ e. ground arith), (λ e. cc)),
  ((λ e. ground arith), (λ e. ground arith)),
  ((λ e. ground arith), (λ e. ground arith)),
)

-- Every row named `k` has been retried `n` times.
abbrev pub HasRetries : ℕ → ℕ → Db → Type 0
HasRetries k n db = All (λ (j : Job). j.id ≡ k → j.retry_count ≡ n) db.jobs

-- The other sessions leave the count of the job as it is.
abbrev pub KeepsRetries : ℕ → (Db → Db) → Type 0
KeepsRetries k f = (n : ℕ) (d : Db) → HasRetries k n d → HasRetries k n (f d)

abbrev pub BeatsKeepRetries : ℕ → Spawn → Type 0
BeatsKeepRetries k (file_not_found message) = Unit
BeatsKeepRetries k (started p) = All (λ (b : Beat). KeepsRetries k b.others) p.beats

pub record IsCountKept (w : World) (job : JobRow) : Type 0 where
  pub others_keep : (p : Point) → KeepsRetries job.id (w.others p)
  pub beats_keep : BeatsKeepRetries job.id w.spawn

module _ (w : World) (job : JobRow) where
  -- If the iteration ends with a retry from here on, that was allowed, and it has been counted.
  abbrev Counts : State → Turn → Type 0
  Counts s t =
      HasRetries job.id job.retry_count s.db
      → t.outcome ≡ some (some job.id, retry)
      → (job.retry_count + 1 < max_retries_default)
        × HasRetries job.id (job.retry_count + 1) t.state.db
