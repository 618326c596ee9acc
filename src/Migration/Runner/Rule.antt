-- ===== src/Migration/Runner/Rule.antt =====
-- A proof rule for one iteration of infra/runners/migration_runner/runner.py: what to show of each
-- way in which `_process` can end, and of each step on the way there.
use odoo_custom.Prelude.{◌≡◌, refl, Bool, true, false, [], Option, none, some, if-holds}
use odoo_custom.Prelude.Text.{Text}
use odoo_custom.Migration.Schema.{JobRow}
use odoo_custom.Migration.Store.{transition_to_skipped, transition_to_blocked, write_snapshot_id}
use odoo_custom.Migration.Heartbeat
use odoo_custom.Migration.Heartbeat.{Watched}
use odoo_custom.Migration.Window.{Calendar, WindowEvaluator}
use odoo_custom.Migration.Runner.Events.{
  World, skipped, blocked, failed, State, Turn, SnapshotOutcome, taken, snapshot_error,
  snapshot_crash, Spawn, Process, file_not_found, started, after_run, after_snapshot,
}
use odoo_custom.Migration.Runner.Parts.{clone_name, make_dryrun_clone, communicate}
use odoo_custom.Migration.Runner.Iteration.{
  with_db, ends, raised, fail_with, process, is_at, conclude, spawned, run_on_clone, run_odoo,
  snapshotted, block, in_window, with_window,
}
use Prim.Native.Nat.{ℕ}

module _ (w : World) (job : JobRow) where
  abbrev pub after_heartbeat : Process → State → State
  after_heartbeat p s =
      with_db s (w.others after_run (Heartbeat.run job.id (some p.pid) p.beats s.db).1)

  abbrev pub with_snapshot : Text → State → State
  with_snapshot snapshot_id s =
      with_db s (w.others after_snapshot (write_snapshot_id job.id snapshot_id s.db))

  -- The relation is between a state on the way and the turn that results.
  pub record Rule (P : State → Turn → Type 0) : Type 0 where
    pub skip :
        (s : State)
        → P s (ends w job skipped (with_db s (transition_to_skipped w.tx_now job.id s.db)) [] [])
    pub wait :
        (s : State) (until : ℕ)
        → P s
            (ends w job blocked (with_db s (transition_to_blocked job.id (some until) s.db)) [] [])
    pub crash : (s : State) → P s (raised w job s)
    pub fail : (s : State) (text : Text) → P s (ends w job failed (fail_with w job text s) [] [])
    pub run :
        (target : Text) (p : Process) (s : State)
        → w.spawn ≡ started p
        → P s (
            conclude w job target
              (communicate p)
              (Heartbeat.run job.id (some p.pid) p.beats s.db).0
              (after_heartbeat p s))
    pub cloned : (s s' : State) (t : Turn) → make_dryrun_clone w job s ≡ some s' → P s' t → P s t
    pub saved :
        (snapshot_id : Text) (s : State) (t : Turn) → P (with_snapshot snapshot_id s) t → P s t

  module _ {P : State → Turn → Type 0} (rule : Rule P) where
    spawned_ind :
        (target : Text) (s : State) (x : Spawn) → w.spawn ≡ x → P s (spawned w job target s x)
    unfolding spawned
    spawned_ind target s (file_not_found message) is = rule.fail s _
    spawned_ind target s (started p) is = rule.run target p s is

    run_on_clone_ind :
        (s : State) (o : Option State)
        → make_dryrun_clone w job s ≡ o
        → P s (run_on_clone w job s o)
    unfolding run_on_clone
    run_on_clone_ind s none made = rule.crash s
    run_on_clone_ind s (some s') made =
        rule.cloned s s' _ made (spawned_ind (clone_name job) s' w.spawn refl)

    snapshotted_ind : (s : State) (x : SnapshotOutcome) → P s (snapshotted w job s x)
    unfolding snapshotted run_odoo
    snapshotted_ind s (taken snapshot_id) =
        let s' = with_snapshot snapshot_id s in
        rule.saved snapshot_id s _ (
          if-holds (P s') job.migration_dry_run _ _ (λ _. run_on_clone_ind s' _ refl)
            (λ _. spawned_ind job.tenant_db_name s' w.spawn refl))
    snapshotted_ind s (snapshot_error message) = rule.fail s _
    snapshotted_ind s snapshot_crash = rule.crash s

    block_ind : (s : State) (o : Option ℕ) → P s (block w job s o)
    unfolding block
    block_ind s none = rule.crash s
    block_ind s (some until) = rule.wait s until

    in_window_ind :
        (c : Calendar) (e : WindowEvaluator) (s : State) (o : Option Bool)
        → P s (in_window w job c e s o)
    unfolding in_window
    in_window_ind c e s none = rule.crash s
    in_window_ind c e s (some false) = block_ind s _
    in_window_ind c e s (some true) = snapshotted_ind s w.snapshot

    with_window_ind :
        (c : Calendar) (s : State) (o : Option WindowEvaluator) → P s (with_window w job c s o)
    unfolding with_window
    with_window_ind c s none = rule.crash s
    with_window_ind c s (some e) = in_window_ind c e s _

    pub process_ind : (c : Calendar) (s : State) → P s (process w job c s)
    unfolding process
    process_ind c s =
        if-holds (P s) (is_at job.last_migrated_sha job.target_sha) _ _ (λ _. rule.skip s)
          (λ _. with_window_ind c s _)
