-- ===== src/Migration/Store.antt =====
-- The transactions of `JobStore`, infra/runners/migration_runner/db.py. Each takes the time that
-- `now()` has in its transaction, and the database before it, and returns the database after it.
pub mod Claim
pub mod Queue
pub mod Drain
use odoo_custom.Prelude.{
  ℕ, ◌+◌, ◌*◌, Bool, true, false, ◌&&◌, ◌||◌, not, List, [], ◌∷◌, Option, none, some, ltb, leb,
  ◌==◌, if◌then◌else◌, find?, update_where,
}
use odoo_custom.Prelude.Text.{Text}
use odoo_custom.Migration.Schema.{
  JobStatus, queued, blocked, running, skipped, done, failed, timedout, cancelled, Wave, canary,
  paused, named, Job, Tenant, Db, JobRow,
}

-- UPDATE tenant_migration_jobs SET ... WHERE id = job_id
unfoldable pub update_job : ℕ → (Job → Job) → Db → Db
update_job job_id set db = record db { jobs = update_where (λ j. j.id == job_id) set db.jobs }

-- UPDATE tenants SET ... WHERE id = tenant_id
unfoldable pub update_tenant : ℕ → (Tenant → Tenant) → Db → Db
update_tenant tenant_id set db = record db {
  tenants = update_where (λ t. t.id == tenant_id) set db.tenants;
}

abbrev pub find_tenant : ℕ → List Tenant → Option Tenant
find_tenant tenant_id = find? (λ t. t.id == tenant_id)

-- COALESCE(wave, 'canary') != 'paused'
abbrev pub is_paused : Option Wave → Bool
is_paused (some paused) = true
is_paused (some canary) = false
is_paused (some (named _)) = false
is_paused none = false

-- COALESCE(blocked_until, '-infinity') <= now()
abbrev pub has_elapsed : Option ℕ → ℕ → Bool
has_elapsed none now = true
has_elapsed (some t) now = leb t now

abbrev pub is_waiting : JobStatus → Option ℕ → ℕ → Bool
is_waiting queued blocked_until now = true
is_waiting blocked blocked_until now = has_elapsed blocked_until now
is_waiting running blocked_until now = false
is_waiting skipped blocked_until now = false
is_waiting done blocked_until now = false
is_waiting failed blocked_until now = false
is_waiting timedout blocked_until now = false
is_waiting cancelled blocked_until now = false

-- The WHERE clause of the claim, for a job and its tenant.
unfoldable pub is_claimable : ℕ → Job → Tenant → Bool
is_claimable now j t =
    is_waiting j.status j.blocked_until now && not (is_paused t.wave) && leb j.enqueued_at now

-- The rows that the claim may take: joined with their tenant, claimable, and not locked by another
-- transaction (SKIP LOCKED).
unfoldable pub candidates : ℕ → (ℕ → Bool) → List Tenant → List Job → List (Job × Tenant)
candidates now locked ts [] = []
candidates now locked ts (j ∷ js) =
    let rest = candidates now locked ts js in
    elim (find_tenant j.tenant_id ts) [
      | none ↦ rest
      | some t ↦ if is_claimable now j t && not (locked j.id) then (j, t) ∷ rest else rest
    ]

-- ORDER BY enqueued_at ASC, id ASC
unfoldable pub comes_before : Job → Job → Bool
comes_before a b =
    ltb a.enqueued_at b.enqueued_at || (a.enqueued_at == b.enqueued_at && leb a.id b.id)

unfoldable pub earliest : List (Job × Tenant) → Option (Job × Tenant)
earliest [] = none
earliest (x ∷ xs) = elim (earliest xs) [
  | none ↦ some x
  | some y ↦ if comes_before x.0 y.0 then some x else some y
]

abbrev pub or_false : Option Bool → Bool
or_false none = false
or_false (some b) = b

abbrev pub job_row : Job → Tenant → JobRow
job_row j t = record {
  id = j.id;
  tenant_id = j.tenant_id;
  tenant_slug = t.slug;
  tenant_db_name = t.db_name;
  target_sha = j.target_sha;
  timeout_minutes = j.timeout_minutes;
  retry_count = j.retry_count;
  maintenance_window = t.maintenance_window;
  tz = t.tz;
  last_migrated_sha = t.last_migrated_sha;
  wave = t.wave;
  override_until = t.override_until;
  migration_dry_run = or_false j.migration_dry_run;
}

abbrev pub set_running : Text → ℕ → Job → Job
set_running host now j = record j {
  status = running;
  started_at = some now;
  heartbeat_at = some now;
  runner_host = some host;
}

unfoldable pub claim_next_job : Text → ℕ → (ℕ → Bool) → Db → Option JobRow × Db
claim_next_job host now locked db = elim (earliest (candidates now locked db.tenants db.jobs)) [
  | none ↦ (none, db)
  | some (j, t) ↦ (some (job_row j t), update_job j.id (set_running host now) db)
]

abbrev pub set_blocked : Option ℕ → Job → Job
set_blocked blocked_until j = record j {
  status = blocked;
  started_at = none;
  heartbeat_at = none;
  finished_at = none;
  blocked_until = blocked_until;
}

unfoldable pub transition_to_blocked : ℕ → Option ℕ → Db → Db
transition_to_blocked job_id blocked_until = update_job job_id (set_blocked blocked_until)

abbrev pub set_skipped : ℕ → Job → Job
set_skipped now j = record j { status = skipped; finished_at = some now }

unfoldable pub transition_to_skipped : ℕ → ℕ → Db → Db
transition_to_skipped now job_id = update_job job_id (set_skipped now)

abbrev pub set_done : ℕ → Job → Job
set_done now j = record j { status = done; finished_at = some now; heartbeat_at = none }

abbrev pub set_sha : ℕ → ℕ → Tenant → Tenant
set_sha now target_sha t = record t { last_migrated_sha = some target_sha; updated_at = some now }

unfoldable pub finalize_done : ℕ → ℕ → ℕ → ℕ → Db → Db
finalize_done now job_id tenant_id target_sha db =
    update_tenant tenant_id (set_sha now target_sha) (update_job job_id (set_done now) db)

-- The statuses that `finalize_failed` accepts by its `assert`.
pub data Failure : Type 0 where
  as_failed as_timedout : Failure

abbrev pub failure_status : Failure → JobStatus
failure_status as_failed = failed
failure_status as_timedout = timedout

abbrev pub set_failed : ℕ → Failure → Text → Job → Job
set_failed now status error_excerpt j = record j {
  status = failure_status status;
  finished_at = some now;
  heartbeat_at = none;
  error_excerpt = some error_excerpt;
}

abbrev pub set_paused : ℕ → Tenant → Tenant
set_paused now t = record t { wave = some paused; updated_at = some now }

unfoldable pub finalize_failed : ℕ → ℕ → ℕ → Failure → Text → Db → Db
finalize_failed now job_id tenant_id status error_excerpt db =
    update_tenant tenant_id (set_paused now)
      (update_job job_id (set_failed now status error_excerpt) db)

-- The microseconds of `interval '1 second'`.
abbrev pub second : ℕ
second = 1_000_000

abbrev pub set_queued : ℕ → ℕ → Text → Job → Job
set_queued now backoff_seconds error_excerpt j = record j {
  status = queued;
  started_at = none;
  finished_at = none;
  heartbeat_at = none;
  retry_count = j.retry_count + 1;
  error_excerpt = some error_excerpt;
  enqueued_at = now + backoff_seconds * second;
}

unfoldable pub retry_transient : ℕ → ℕ → ℕ → Text → Db → Db
retry_transient now job_id backoff_seconds error_excerpt =
    update_job job_id (set_queued now backoff_seconds error_excerpt)

-- RETURNING status: the status of the row, if there is one.
abbrev pub find_status : ℕ → List Job → Option JobStatus
find_status job_id jobs = elim (find? (λ j. j.id == job_id) jobs) [
  | none ↦ none
  | some j ↦ some j.status
]

abbrev pub set_heartbeat : ℕ → Job → Job
set_heartbeat now j = record j { heartbeat_at = some now }

unfoldable pub record_heartbeat : ℕ → ℕ → Db → Option JobStatus × Db
record_heartbeat now job_id db =
    let db' = update_job job_id (set_heartbeat now) db in (find_status job_id db'.jobs, db')

abbrev pub set_snapshot : Text → Job → Job
set_snapshot snapshot_id j = record j { snapshot_id = some snapshot_id }

unfoldable pub write_snapshot_id : ℕ → Text → Db → Db
write_snapshot_id job_id snapshot_id = update_job job_id (set_snapshot snapshot_id)
