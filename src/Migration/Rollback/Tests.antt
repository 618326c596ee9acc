-- ===== src/Migration/Rollback/Tests.antt =====
-- The rollback and the snapshots of infra/runners/migration_runner, at small inputs.
use odoo_custom.Prelude.{
  ◌≡◌, ◌≢◌, refl, true, false, [], ◌∷◌, ◌++◌, none, some, arith, find?, update_where,
}
use odoo_custom.Prelude.Text.{Text, codes, show_ℕ, strip}
use odoo_custom.Prelude.Split.{behind_first}
use odoo_custom.Migration.Schema.{JobStatus, JobRow}
use odoo_custom.Migration.Store.{
  update_job, update_tenant, claim_next_job, job_row, earliest, candidates, is_claimable,
  comes_before,
}
use odoo_custom.Migration.Snapshot
use odoo_custom.Migration.Snapshot.{
  Ran, printed, failed, timed_out, missing, raised, is_empty, Settings, Snapshot, taken,
  take_snapshot,
}
use odoo_custom.Migration.Rollback.{
  RollbackPlan, Env, info_argv, restore_argv, info, restore, ok, snapshot_missing, status, Outside,
  rollback_via_pgrestore, restore_cluster, with_info, run, State, lookup_plan, finalize_ok, exits,
  commit_ok, after_run, with_plan, cli,
}
use odoo_custom.Migration.Snapshot.Key.{parse_snapshot_key-print}
use odoo_custom.Migration.Rollback.Outcomes.{IsCareful, run-IsCareful}
use odoo_custom.Migration.Rollback.Ending.{claim-cli}
use odoo_custom.Migration.Rollback.Skipped.{run-take_snapshot}
use odoo_custom.Migration.Samples.{tenant, job, host, free}

abbrev env : Env
env = record {
  pg_app = codes "pg";
  stanza = codes "shared";
  dry_run = codes "TRUE";
  target_time = [];
  actor = codes "ana";
  has_dsn = true;
  short = λ sha. codes "0000000";
}

abbrev outside : Outside
outside = record {
  info = printed (codes "20260525F");
  restore = printed [];
  others = λ db. db;
  can_connect = true;
  can_commit = true;
}

abbrev plan : Text → RollbackPlan
plan snapshot_id = record {
  job_id = 7;
  tenant_id = 1;
  tenant_db_name = (tenant 1).db_name;
  snapshot_id = snapshot_id;
  previous_sha = 3;
  reason = [];
  actor = codes "ana";
}

-- A run for the whole cluster, which restores.
abbrev real : Env
real = record env { dry_run = [] }

run_runs : run real outside (plan (codes "20260525F")) ≡ (
  status ok,
  info (info_argv real) ∷ restore (restore_argv real (plan (codes "20260525F"))) ∷ [],
)
unfolding run with_info restore_cluster behind_first
run_runs = refl

run-IsCareful_example :
    IsCareful real outside (plan (codes "20260525F")) (run real outside (plan (codes "20260525F")))
run-IsCareful_example = run-IsCareful real outside (plan (codes "20260525F"))

-- A done job with a dump of its database.
abbrev state : State
state = record {
  db = record {
    jobs =
        record (job 7 1 20 false) {
          status = JobStatus.failed;
          snapshot_id = some (codes "pgdump/a");
        }
        ∷ job 8 1 30 false
        ∷ [];
    tenants = tenant 1 ∷ [];
  };
  events = [];
}

-- What a test of the command line computes with.
rolling : Unit {0}
unfolding cli with_plan run rollback_via_pgrestore after_run commit_ok lookup_plan finalize_ok find?
    update_where update_job update_tenant claim_next_job earliest candidates is_claimable
    comes_before
rolling = tt

abbrev plan_7 : RollbackPlan
plan_7 = record (plan (codes "pgdump/a")) { reason = codes "operator rollback to 0000000" }

-- A drill restores nothing, and is written like a rollback.
drill :
    cli env outside 90 (7 ∷ 3 ∷ []) state
    ≡ record { exit = exits 0; state = finalize_ok env 90 plan_7 state; commands = [] }
unfolding rolling
drill = refl

abbrev next_row : JobRow
next_row =
    job_row (job 8 1 30 false)
      (record (tenant 1) { last_migrated_sha = some 3; updated_at = some 90 })

claim-cli_example : next_row.id ≢ 7
unfolding rolling
claim-cli_example =
    claim-cli env outside 90 7 3 state host 100 free {row = next_row}
      {db' = (claim_next_job host 100 free (cli env outside 90 (7 ∷ 3 ∷ []) state).state.db).1} refl
      refl

abbrev skipping : Settings
skipping = record { mode = codes "skip"; snapshot_mode = none; url = []; secret = [] }

abbrev at_12 : Snapshot.Outside
at_12 = record { monotonic = 12; ran = missing; answered = Snapshot.call_failed }

run-take_snapshot_example :
    run real outside (plan (codes "no-snapshot-12")) ≡ (status snapshot_missing, [])
unfolding take_snapshot show_ℕ
run-take_snapshot_example =
    run-take_snapshot skipping at_12 real outside (plan (codes "no-snapshot-12")) refl refl refl

parse_snapshot_key-print_example :
    Snapshot.parse_snapshot_key
      (codes "Dumping" ++ (10 ∷ ((Snapshot.key_marker ++ codes "pgdump/a") ++ (10 ∷ []))))
    ≡ some (strip (codes "pgdump/a"))
parse_snapshot_key-print_example =
    parse_snapshot_key-print (codes "Dumping") (codes "pgdump/a") (ground arith)
