-- ===== src/Migration/Runner/Retaking.antt =====
-- When a job that an iteration of infra/runners/migration_runner/runner.py has handled can be
-- claimed again.
use odoo_custom.Prelude.{ℕ, ◌+◌, ◌*◌, ◌<◌, ◌≡◌, ◌≢◌, inl, inr, Bool, some, arith, All-map}
use odoo_custom.Prelude.Text.{Text}
use odoo_custom.Migration.Schema.{Job, Tenant, Db, JobRow}
use odoo_custom.Migration.Store.{second, claim_next_job}
use odoo_custom.Migration.Store.Claim.{IsClaimable}
use odoo_custom.Migration.Store.Queue.{claim-ne}
use odoo_custom.Migration.Window.{Calendar, IsForward}
use odoo_custom.Migration.Runner.Events.{
  World, RunStatus, idle, skipped, blocked, done, failed, timedout, cancelled, retry, State,
}
use odoo_custom.Migration.Runner.Parts.{compute_backoff_seconds}
use odoo_custom.Migration.Runner.Iteration.{process}
use odoo_custom.Migration.Runner.Settling.{next_window, Settles, process-Settled}

-- A job that ended is not due at any time; one that was blocked not before the next firing of its
-- maintenance window, and one that is retried not before its backoff has passed.
abbrev pub IsTooEarly : World → JobRow → Calendar → RunStatus → ℕ → Type 0
IsTooEarly w job c skipped now = Unit
IsTooEarly w job c done now = Unit
IsTooEarly w job c failed now = Unit
IsTooEarly w job c timedout now = Unit
IsTooEarly w job c blocked now = now < next_window w job c
IsTooEarly w job c retry now = now < w.tx_now + compute_backoff_seconds job.retry_count * second
IsTooEarly w job c cancelled now = ⊥
IsTooEarly w job c idle now = ⊥

Settles-unclaimable :
    (w : World) (job : JobRow) (cal : Calendar) (status : RunStatus) (now : ℕ) (j : Job)
    (t : Tenant)
    → IsTooEarly w job cal status now
    → Settles w job cal status j
    → ¬ IsClaimable now j t
Settles-unclaimable w job cal skipped now j t early h c = ground (arith, c.0)
Settles-unclaimable w job cal done now j t early h c = ground (arith, c.0)
Settles-unclaimable w job cal failed now j t early h c = ground (arith, c.0)
Settles-unclaimable w job cal timedout now j t early h c = ground (arith, c.0)
Settles-unclaimable w job cal blocked now j t early h c = elim c.0 [
  | inl queued_again ↦ cc
  | inr waits ↦ let due = waits.1 (next_window w job cal) h.1 in omega arith
]
Settles-unclaimable w job cal retry now j t early h c = let due = c.2 in omega arith
Settles-unclaimable w job cal idle now j t early h c = elim early [ ]
Settles-unclaimable w job cal cancelled now j t early h c = elim early [ ]

-- The job of an iteration that has returned is not claimed again by any process while it is too
-- early for it: never after it was skipped, done, failed or timed out, not before the next
-- firing of its maintenance window when it was blocked, and not before its backoff has passed when it
-- is to be retried.
pub claim-process-ne :
    (c : Calendar) (w : World) (job : JobRow) (s : State) (status : RunStatus) (host : Text)
    (now : ℕ) (locked : ℕ → Bool) {row : JobRow} {db' : Db}
    → IsForward c
    → (process w job c s).outcome ≡ some (some job.id, status)
    → IsTooEarly w job c status now
    → claim_next_job host now locked (process w job c s).state.db ≡ (some row, db')
    → row.id ≢ job.id
claim-process-ne c w job s status host now locked forward ended early e =
    let settled = rw ended at (process-Settled w job c forward s) in
    claim-ne host now locked (process w job c s).state.db job.id
      (All-map _ _ _ (λ j h t same. Settles-unclaimable w job c status now j t early (h same))
        settled.1)
      e
