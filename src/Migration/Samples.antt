-- ===== src/Migration/Samples.antt =====
-- Small inputs for the tests of the migration runner, infra/runners/migration_runner: two tenants,
-- a job for each, and worlds for one iteration.
use odoo_custom.Prelude.{ℕ, ◌+◌, ◌-◌, ◌*◌, ◌/◌, Bool, true, false, List, [], ◌∷◌, none, some, arith}
use odoo_custom.Prelude.Int.{pos, negsuc}
use odoo_custom.Prelude.Text.{Text, codes}
use odoo_custom.Migration.Schema.{queued, running, paused, Job, Tenant, Db, JobRow}
use odoo_custom.Migration.Schema as Schema
use odoo_custom.Migration.Store.{
  second, finalize_failed, as_failed, job_row, update_job, set_running,
}
use odoo_custom.Migration.Window.{LocalTime, Calendar, IsForward, WindowEvaluator}
use odoo_custom.Migration.Heartbeat.{Beat}
use odoo_custom.Migration.Runner.Events.{taken, Exit, Process, started, World, State}

-- A calendar of one zone, in which every cron expression fires at midnight.
abbrev pub day : ℕ
day = 86_400 * second

abbrev pub at : ℕ → LocalTime
at wall = record { wall = wall; fold = false }

abbrev pub midnights : Calendar
midnights = record {
  is_valid_cron = λ cron. true;
  is_valid_tz = λ tz. true;
  to_local = λ tz now. at now;
  to_utc = λ tz local_time. local_time.wall;
  get_prev = λ cron tz local_time. at ((local_time.wall - 1) / day * day);
  get_next = λ cron tz local_time. at ((local_time.wall / day + 1) * day);
}

pub midnights-IsForward : IsForward midnights
midnights-IsForward = record { get_next_after = λ cron tz now valid. omega arith }

abbrev pub tenant : ℕ → Tenant
tenant id = record {
  id = id;
  slug = codes "acme";
  db_name = codes "acme_db";
  maintenance_window = codes "0 0 * * *";
  tz = codes "UTC";
  last_migrated_sha = none;
  wave = none;
  override_until = none;
  updated_at = none;
}

abbrev pub job : ℕ → ℕ → ℕ → Bool → Job
job id tenant_id enqueued_at dry_run = record {
  id = id;
  tenant_id = tenant_id;
  target_sha = 0xabc;
  timeout_minutes = 30;
  retry_count = 0;
  migration_dry_run = some dry_run;
  status = queued;
  enqueued_at = enqueued_at;
  started_at = none;
  heartbeat_at = none;
  finished_at = none;
  blocked_until = none;
  runner_host = none;
  snapshot_id = none;
  error_excerpt = none;
}

abbrev pub queue : Bool → Db
queue dry_run = record {
  jobs = job 7 1 20 false ∷ job 8 2 10 dry_run ∷ [];
  tenants = tenant 1 ∷ tenant 2 ∷ [];
}

abbrev pub host : Text
host = codes "worker"

abbrev pub free : ℕ → Bool
free id = false

-- The second job was enqueued first.
abbrev pub first_row : Bool → JobRow
first_row dry_run = job_row (job 8 2 10 dry_run) (tenant 2)

abbrev pub first_db : Bool → Db
first_db dry_run = update_job 8 (set_running host 50) (queue dry_run)

abbrev pub failed_db : Db
failed_db = finalize_failed 60 8 2 as_failed (codes "exit=1") (queue false)

-- A child that exits with the given code after its first wait.
abbrev pub child : Exit → Process
child exit = record {
  pid = 99;
  beats = [];
  first_wait = some exit;
  second_wait = none;
  last_wait = exit;
}

abbrev pub world : Exit → Bool → World
world exit can_create = record {
  runner_host = host;
  claim_now = 50;
  locked = free;
  clock = 55 * second;
  tx_now = 60 * second;
  global_override = false;
  snapshot = taken (codes "snap-1");
  can_create_database = can_create;
  can_drop_database = true;
  spawn = started (child exit);
  others = λ point db. db;
}

abbrev pub succeeding : World
succeeding = world (record { returncode = pos 0; stderr = [] }) true

-- A child killed by SIGTERM from outside has return code -15, which is not retried.
abbrev pub killed : World
killed = world (record { returncode = negsuc 14; stderr = codes "Terminated" }) true

-- A child whose shell reports the same death as 143 is retried.
abbrev pub reported : World
reported = world (record { returncode = pos 143; stderr = [] }) true

abbrev pub uncloneable : World
uncloneable = world (record { returncode = pos 0; stderr = [] }) false

abbrev pub start : Bool → State
start dry_run = record { db = first_db dry_run; databases = codes "acme_db" ∷ [] }

-- A window that opens at midnight, at 00:30 and at 02:00.
abbrev pub nightly : WindowEvaluator
nightly = record {
  cron = codes "0 0 * * *";
  tz = codes "UTC";
  override_until = none;
  global_override = false;
}

-- A heartbeat that fails, one that finds the job running, and one behind an operator's cancellation.
abbrev pub cancel : Db → Db
cancel db = update_job 8 (λ j. record j { status = Schema.cancelled }) db

abbrev pub beats : List Beat
beats =
    record { others = λ db. db; stop_set = false; raises = true; now = 100 }
    ∷ record { others = λ db. db; stop_set = false; raises = false; now = 160 }
    ∷ record { others = cancel; stop_set = false; raises = false; now = 220 }
    ∷ []

-- Two iterations: the first is done, the second finds the other job in a closed window, and only
-- then the loop sleeps.
abbrev pub closed : World
closed = record succeeding { clock = day + 7200 * second }
