-- ===== src/Migration/Rollback.antt =====
-- infra/runners/migration_runner/rollback.py: restoring a tenant's database from the snapshot of a
-- job, and its command line, over the outcomes of the commands that it runs.
pub mod Outcomes
pub mod Ending
pub mod Skipped
mod Tests
use odoo_custom.Prelude.{
  ℕ, Bool, true, false, not, ◌&&◌, ◌||◌, List, [], ◌∷◌, ◌++◌, Option, none, some, ◌==◌,
  if◌then◌else◌, find?,
}
use odoo_custom.Prelude.Text.{Text, codes, text_eq}
use odoo_custom.Prelude.Split.{starts_with, contains, lower}
use odoo_custom.Migration.Schema.{cancelled, Job, Tenant, Db}
use odoo_custom.Migration.Store.{update_job, update_tenant, find_tenant}
use odoo_custom.Migration.Snapshot.{Ran, printed, failed, timed_out, missing, raised, is_empty}

pub record RollbackPlan : Type 0 where
  pub job_id : ℕ
  pub tenant_id : ℕ
  pub tenant_db_name : Text
  pub snapshot_id : Text
  pub previous_sha : ℕ
  pub reason : Text
  pub actor : Text

-- The environment: PGBACKREST_SSH_APP, PGBACKREST_STANZA, PGBACKREST_DRY_RUN and
-- ROLLBACK_TARGET_TIME with their defaults ('' for the last two), the actor, and whether
-- CONTROL_PLANE_PG_DSN is set. A commit is identified by a number; `short` gives the first 7
-- characters of its text, `sha[:7]`.
pub record Env : Type 0 where
  pub pg_app : Text
  pub stanza : Text
  pub dry_run : Text
  pub target_time : Text
  pub actor : Text
  pub has_dsn : Bool
  pub short : ℕ → Text

-- `_pgrestore_argv` and `_pgbackrest_argv`, with the arguments joined.
abbrev pub ssh_argv : Env → Text → List Text
ssh_argv env remote_cmd =
    codes "flyctl"
    ∷ codes "ssh"
    ∷ codes "console"
    ∷ codes "--app"
    ∷ env.pg_app
    ∷ codes "--command"
    ∷ remote_cmd
    ∷ []

-- Texts joined by a space.
abbrev pub words : List Text → Text
words [] = []
words (w ∷ []) = w
words (w ∷ v ∷ ws) = w ++ (32 ∷ words (v ∷ ws))

abbrev pub pgrestore_argv : Env → Text → Text → List Text
pgrestore_argv env snapshot_key db_name =
    ssh_argv env
      (words (codes "/usr/local/bin/pgrestore-snapshot.sh" ∷ snapshot_key ∷ db_name ∷ []))

abbrev pub pgbackrest_argv : Env → List Text → List Text
pgbackrest_argv env args = ssh_argv env (codes "gosu postgres pgbackrest " ++ words args)

-- The commands: the one that lists the backups, and those that restore.
pub data Command : Type 0 where
  info restore : List Text → Command

pub data Status : Type 0 where
  ok snapshot_missing restore_failed : Status

-- How `run` ends: with a status, a RollbackError, or another exception.
pub data Ended : Type 0 where
  status : Status → Ended
  rollback_error crash : Ended

-- What the commands gave, and what other sessions commit while they run.
pub record Outside : Type 0 where
  pub info : Ran
  pub restore : Ran
  pub others : Db → Db
  pub can_connect : Bool
  pub can_commit : Bool

abbrev pub is_dry_run : Env → Bool
is_dry_run env =
    let value = lower env.dry_run in
    text_eq value (codes "1") || text_eq value (codes "true") || text_eq value (codes "yes")

-- After the command that restores; where that is the wrapper of pg_restore or pgbackrest alike.
abbrev pub restored : Ran → Ended
restored (printed out) = status ok
restored failed = status restore_failed
restored timed_out = rollback_error
restored missing = crash
restored raised = crash

-- `_rollback_via_pgrestore`: how it ends, and the commands that it has run.
unfoldable pub rollback_via_pgrestore : Env → Outside → RollbackPlan → Ended × List Command
rollback_via_pgrestore env out plan = if is_dry_run env then (status ok, []) else (
  restored out.restore,
  restore (pgrestore_argv env plan.snapshot_id plan.tenant_db_name) ∷ [],
)

abbrev pub is_sentinel : RollbackPlan → Bool
is_sentinel plan = starts_with plan.snapshot_id (codes "no-snapshot-")

abbrev pub info_argv : Env → List Text
info_argv env =
    pgbackrest_argv env
      ((codes "--stanza=" ++ env.stanza) ∷ codes "info" ∷ codes "--output=json" ∷ [])

abbrev pub restore_argv : Env → RollbackPlan → List Text
restore_argv env plan = pgbackrest_argv env (
    (codes "--stanza=" ++ env.stanza)
    ∷ codes "--delta"
    ∷ (if is_sentinel plan
        then codes "--type=time" ∷ (codes "--target=" ++ env.target_time) ∷ codes "restore" ∷ []
        else codes "--set" ∷ plan.snapshot_id ∷ codes "restore" ∷ []))

-- `run` behind the listing of the backups.
unfoldable pub restore_cluster : Env → Outside → RollbackPlan → Ended × List Command
restore_cluster env out plan =
    if is_dry_run env
    then (status ok, info (info_argv env) ∷ [])
    else (restored out.restore, info (info_argv env) ∷ restore (restore_argv env plan) ∷ [])

-- `run`, once the listing has ended.
unfoldable pub with_info : Env → Outside → RollbackPlan → Ran → Ended × List Command
with_info env out plan (printed stdout) =
    if not (is_sentinel plan) && not (contains plan.snapshot_id stdout)
    then (status snapshot_missing, info (info_argv env) ∷ [])
    else restore_cluster env out plan
with_info env out plan failed = (rollback_error, info (info_argv env) ∷ [])
with_info env out plan missing = (rollback_error, info (info_argv env) ∷ [])
with_info env out plan timed_out = (crash, info (info_argv env) ∷ [])
with_info env out plan raised = (crash, info (info_argv env) ∷ [])

unfoldable pub run : Env → Outside → RollbackPlan → Ended × List Command
run env out plan =
    if starts_with plan.snapshot_id (codes "pgdump/")
    then rollback_via_pgrestore env out plan
    else if is_sentinel plan && is_empty env.target_time
    then (status snapshot_missing, [])
    else with_info env out plan out.info

-- A row of saas_audit.event, 'tenant.migration_rolled_back'.
pub record Event : Type 0 where
  pub actor_name : Text
  pub target_id : ℕ
  pub sha : ℕ
  pub reason : Text
  pub job_id : ℕ
  pub snapshot_id : Text

pub record State : Type 0 where
  pub db : Db
  pub events : List Event

abbrev pub find_job : ℕ → Db → Option Job
find_job job_id db = find? (λ (j : Job). j.id == job_id) db.jobs

abbrev pub plan_of : Env → ℕ → ℕ → Option Text → Option Tenant → Option RollbackPlan
plan_of env job_id previous_sha none t = none
plan_of env job_id previous_sha (some snapshot_id) none = none
plan_of env job_id previous_sha (some snapshot_id) (some t) =
    if is_empty snapshot_id
    then none
    else some (record {
      job_id = job_id;
      tenant_id = t.id;
      tenant_db_name = t.db_name;
      snapshot_id = snapshot_id;
      previous_sha = previous_sha;
      reason = codes "operator rollback to " ++ env.short previous_sha;
      actor = env.actor;
    })

-- `_lookup_plan`, `none` where it raises the RollbackError.
unfoldable pub lookup_plan : Env → ℕ → ℕ → Db → Option RollbackPlan
lookup_plan env job_id previous_sha db = elim (find_job job_id db) [
  | none ↦ none
  | some j ↦ plan_of env job_id previous_sha j.snapshot_id (find_tenant j.tenant_id db.tenants)
]

abbrev pub set_version : ℕ → ℕ → Tenant → Tenant
set_version now sha t = record t { last_migrated_sha = some sha; updated_at = some now }

abbrev pub set_rolled_back : Env → ℕ → RollbackPlan → Job → Job
set_rolled_back env now plan j = record j {
  status = cancelled;
  finished_at = some now;
  error_excerpt =
      some
        (codes "rolled back to " ++ (env.short plan.previous_sha ++ (codes " by " ++ plan.actor)));
}

-- `_finalize_ok`, at the time `now`.
unfoldable pub finalize_ok : Env → ℕ → RollbackPlan → State → State
finalize_ok env now plan s = record {
  db =
      update_job plan.job_id (set_rolled_back env now plan)
        (update_tenant plan.tenant_id (set_version now plan.previous_sha) s.db);
  events =
      record {
        actor_name = plan.actor;
        target_id = plan.tenant_id;
        sha = plan.previous_sha;
        reason = plan.reason;
        job_id = plan.job_id;
        snapshot_id = plan.snapshot_id;
      }
      ∷ s.events;
}

-- How the process ends: with an exit code, or with a traceback, which Python's exit code 1 follows.
pub data Exit : Type 0 where
  exits : ℕ → Exit
  traceback : Exit

pub record Done : Type 0 where
  pub exit : Exit
  pub state : State
  pub commands : List Command

module _ (env : Env) (out : Outside) (now : ℕ) where
  -- The transaction at the end.
  unfoldable pub commit_ok : RollbackPlan → List Command → State → Done
  commit_ok plan commands s =
      if out.can_commit
      then record { exit = exits 0; state = finalize_ok env now plan s; commands = commands }
      else record { exit = traceback; state = s; commands = commands }

  -- `cli` behind `run`.
  unfoldable pub after_run : RollbackPlan → Ended × List Command → State → Done
  after_run plan (status snapshot_missing, commands) s = record {
    exit = exits 4;
    state = s;
    commands = commands;
  }
  after_run plan (status restore_failed, commands) s = record {
    exit = exits 3;
    state = s;
    commands = commands;
  }
  after_run plan (status ok, commands) s = commit_ok plan commands s
  after_run plan (rollback_error, commands) s = record {
    exit = traceback;
    state = s;
    commands = commands;
  }
  after_run plan (crash, commands) s = record { exit = traceback; state = s; commands = commands }

  -- `cli` behind the lookup, whose transaction is committed before the restore.
  unfoldable pub with_plan : Option RollbackPlan → State → Done
  with_plan none s = record { exit = exits 2; state = s; commands = [] }
  with_plan (some plan) s = after_run plan (run env out plan) (record s { db = out.others s.db })

  -- `cli`, of arguments that are identifiers.
  unfoldable pub cli : List ℕ → State → Done
  cli (job_id ∷ previous_sha ∷ []) s =
      if not env.has_dsn
      then record { exit = exits 1; state = s; commands = [] }
      else if not out.can_connect
      then record { exit = traceback; state = s; commands = [] }
      else with_plan (lookup_plan env job_id previous_sha s.db) s
  cli _ s = record { exit = exits 1; state = s; commands = [] }
