-- ===== src/Migration/Rollback/Skipped.antt =====
-- A run of infra/runners/migration_runner/rollback.py after a snapshot that was skipped.
use odoo_custom.Prelude.{◌≡◌, refl, ap, true, false, [], ◌++◌, arith}
use odoo_custom.Prelude.Text.{Text, codes, show_ℕ}
use odoo_custom.Prelude.Split.{starts_with, is_there, behind-append}
use odoo_custom.Migration.Snapshot
use odoo_custom.Migration.Snapshot.{
  Ran, printed, failed, timed_out, missing, raised, is_empty, Settings, Snapshot, taken,
  take_snapshot,
}
use odoo_custom.Migration.Rollback.{RollbackPlan, Env, snapshot_missing, status, Outside, run}

skip_snapshot_id :
    (set : Settings) (o : Snapshot.Outside) {id : Text}
    → Snapshot.mode_of set ≡ codes "skip"
    → take_snapshot set o ≡ taken id
    → id ≡ codes "no-snapshot-" ++ show_ℕ o.monotonic
unfolding take_snapshot
skip_snapshot_id set o {id} skip e = ground (arith, skip, e)

-- A job whose snapshot was skipped, by the mode argument, by SNAPSHOT_MODE or because neither is
-- there, cannot be rolled back without a target time: the run reports a missing snapshot, and no
-- command is run.
pub run-take_snapshot :
    (set : Settings) (o : Snapshot.Outside) (env : Env) (out : Outside) (plan : RollbackPlan)
    → Snapshot.mode_of set ≡ codes "skip"
    → take_snapshot set o ≡ taken plan.snapshot_id
    → env.target_time ≡ []
    → run env out plan ≡ (status snapshot_missing, [])
unfolding run
run-take_snapshot set o env out plan skip taken_id untimed =
    let is = skip_snapshot_id set o {id = plan.snapshot_id} skip taken_id in
    let sentinel : starts_with plan.snapshot_id (codes "no-snapshot-") ≡ true =
      rw is (ap is_there (behind-append (codes "no-snapshot-") (show_ℕ o.monotonic))) in
    let no_dump : starts_with plan.snapshot_id (codes "pgdump/") ≡ false = rw is refl in
    ground (arith, no_dump, sentinel, untimed)
