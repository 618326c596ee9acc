-- ===== src/Migration/Runner/Iteration.antt =====
-- One iteration of infra/runners/migration_runner/runner.py, and its loop, as functions of what the
-- outside world does during an iteration (`World`).
use odoo_custom.Prelude.{
  ℕ, ◌*◌, Bool, true, false, List, [], ◌∷◌, ◌++◌, Option, none, some, ◌==◌, if◌then◌else◌,
}
use odoo_custom.Prelude.Text.{Text, codes, show_ℕ, show_ℤ}
use odoo_custom.Migration.Schema.{Db, JobRow}
use odoo_custom.Migration.Store.{
  claim_next_job, transition_to_blocked, transition_to_skipped, finalize_done, finalize_failed,
  as_failed, as_timedout, retry_transient, write_snapshot_id,
}
use odoo_custom.Migration.Window.{Calendar, WindowEvaluator, make_evaluator, is_open, next_open}
use odoo_custom.Migration.Heartbeat
use odoo_custom.Migration.Heartbeat.{Watched}
use odoo_custom.Migration.Runner.Events.{
  SnapshotOutcome, Spawn, taken, snapshot_error, snapshot_crash, file_not_found, started,
  after_claim, after_snapshot, after_run, World, RunStatus, idle, skipped, blocked, done, failed,
  timedout, cancelled, retry, State, Signal, Turn,
}
use odoo_custom.Migration.Runner.Parts.{
  classify_exit, max_retries_default, compute_backoff_seconds, excerpt, tail_of, clone_name,
  make_dryrun_clone, drop_dryrun_clone, Ended, communicate,
}

abbrev pub with_db : State → Db → State
with_db s db = record s { db = db }

abbrev pub is_at : Option ℕ → ℕ → Bool
is_at none sha = false
is_at (some last) sha = last == sha

module _ (w : World) (job : JobRow) where
  abbrev pub ends : RunStatus → State → List Text → List Signal → Turn
  ends status s odoo_on signals = record {
    outcome = some (some job.id, status);
    state = s;
    odoo_on = odoo_on;
    signals = signals;
  }

  abbrev pub raised : State → Turn
  raised s = record { outcome = none; state = s; odoo_on = []; signals = [] }

  -- `job.timeout_minutes * 60`
  abbrev pub timeout_seconds : ℕ
  timeout_seconds = job.timeout_minutes * 60

  -- The row of a job whose Odoo has exited with 0.
  unfoldable pub succeed : Text → State → State
  succeed target s =
      if job.migration_dry_run
      then drop_dryrun_clone w target (with_db s (transition_to_skipped w.tx_now job.id s.db))
      else with_db s (finalize_done w.tx_now job.id job.tenant_id job.target_sha s.db)

  abbrev pub fail_with : Text → State → State
  fail_with message s =
      with_db s (finalize_failed w.tx_now job.id job.tenant_id as_failed message s.db)

  -- The end of `_run_odoo`, by what the exit code was classified as.
  unfoldable pub record_exit : Text → Ended → State → RunStatus → Turn
  record_exit target ended s done = ends done (succeed target s) (target ∷ []) ended.sent
  record_exit target ended s retry =
      let message =
        codes "transient exit="
        ++ (show_ℤ ended.exit.returncode ++ (codes "\n" ++ tail_of ended.exit.stderr)) in
      let backoff = compute_backoff_seconds job.retry_count in
      ends retry (with_db s (retry_transient w.tx_now job.id backoff (excerpt message) s.db))
        (target ∷ []) ended.sent
  record_exit target ended s _ =
      let message =
        codes "exit="
        ++ (show_ℤ ended.exit.returncode ++ (codes "\n" ++ tail_of ended.exit.stderr)) in
      ends failed (fail_with (excerpt message) s) (target ∷ []) ended.sent

  abbrev pub timeout_message : Text → Text
  timeout_message stderr =
      excerpt (codes "timed out after " ++ (show_ℕ timeout_seconds ++ (codes "s\n" ++ stderr)))

  -- `_run_odoo` once the heartbeat thread has stopped.
  unfoldable pub conclude : Text → Ended → Watched → State → Turn
  conclude target ended seen s =
      if seen.observed_cancel
      then ends cancelled s (target ∷ []) ended.sent
      else if ended.timed_out
      then ends timedout
          (with_db s (
            finalize_failed w.tx_now job.id job.tenant_id as_timedout
              (timeout_message (tail_of ended.exit.stderr)) s.db))
          (target ∷ []) ended.sent
      else record_exit target ended s
          (classify_exit ended.exit.returncode job.retry_count max_retries_default)

  -- `_run_odoo` behind the call of Popen: the heartbeat thread runs while the process does.
  unfoldable pub spawned : Text → State → Spawn → Turn
  spawned target s (file_not_found message) =
      ends failed (fail_with (codes "odoo binary missing: " ++ message) s) [] []
  spawned target s (started p) =
      let (seen, db) = Heartbeat.run job.id (some p.pid) p.beats s.db in
      conclude target (communicate p) seen (with_db s (w.others after_run db))

  -- `_run_odoo` on the dry-run clone, if it could be made.
  unfoldable pub run_on_clone : State → Option State → Turn
  run_on_clone s none = raised s
  run_on_clone s (some s') = spawned (clone_name job) s' w.spawn

  unfoldable pub run_odoo : State → Turn
  run_odoo s =
      if job.migration_dry_run
      then run_on_clone s (make_dryrun_clone w job s)
      else spawned job.tenant_db_name s w.spawn

  -- `_process` behind the call of the snapshot function.
  unfoldable pub snapshotted : State → SnapshotOutcome → Turn
  snapshotted s (taken snapshot_id) =
      run_odoo (with_db s (w.others after_snapshot (write_snapshot_id job.id snapshot_id s.db)))
  snapshotted s (snapshot_error message) =
      ends failed (fail_with (excerpt (codes "snapshot failed: " ++ message)) s) [] []
  snapshotted s snapshot_crash = raised s

  -- `_process` where the window is closed, behind the call of `next_open`.
  unfoldable pub block : State → Option ℕ → Turn
  block s none = raised s
  block s (some until) =
      ends blocked (with_db s (transition_to_blocked job.id (some until) s.db)) [] []

  -- `_process` behind the call of `is_open`.
  unfoldable pub in_window : Calendar → WindowEvaluator → State → Option Bool → Turn
  in_window c e s none = raised s
  in_window c e s (some false) = block s (next_open c e w.clock)
  in_window c e s (some true) = snapshotted s w.snapshot

  -- `_process` behind `_default_window`, which builds the evaluator.
  unfoldable pub with_window : Calendar → State → Option WindowEvaluator → Turn
  with_window c s none = raised s
  with_window c s (some e) = in_window c e s (is_open c e w.clock)

  abbrev pub default_window : Calendar → Option WindowEvaluator
  default_window c =
      make_evaluator c job.maintenance_window job.tz job.override_until w.global_override

  unfoldable pub process : Calendar → State → Turn
  process c s =
      if is_at job.last_migrated_sha job.target_sha
      then ends skipped (with_db s (transition_to_skipped w.tx_now job.id s.db)) [] []
      else with_window c s (default_window c)

unfoldable pub run_once : Calendar → World → State → Turn
run_once c w s =
    let (claimed, db) = claim_next_job w.runner_host w.claim_now w.locked s.db in
    elim claimed [
      | none ↦ record {
        outcome = some (none, idle);
        state = with_db s db;
        odoo_on = [];
        signals = [];
      }
      | some job ↦ process w job c (with_db s (w.others after_claim db))
    ]

-- Whether the loop sleeps after an iteration: after one that raised, found nothing or was blocked.
abbrev pub sleeps : Option (Option ℕ × RunStatus) → Bool
sleeps none = true
sleeps (some (job_id, idle)) = true
sleeps (some (job_id, blocked)) = true
sleeps (some (job_id, _)) = false

-- `run_forever`, over the worlds of the iterations that it makes before it is stopped.
unfoldable pub run_forever : Calendar → List World → State → List Bool × State
run_forever c [] s = ([], s)
run_forever c (w ∷ ws) s =
    let turn = run_once c w s in
    let (slept, last) = run_forever c ws turn.state in (sleeps turn.outcome ∷ slept, last)
