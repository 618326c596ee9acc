-- ===== src/Migration/Schema.antt =====
-- The rows of `tenant_migration_jobs` and `tenants` that infra/runners/migration_runner/db.py reads
-- and writes, and the snapshot `JobRow` that it hands to the runner.
--
-- An identifier (uuid) and a commit hash are the numbers that they print; they are only compared
-- and ordered. A time is the number of microseconds since the epoch, in UTC. NULL is `none`.
use odoo_custom.Prelude.{ℕ, Bool, List, Option}
use odoo_custom.Prelude.Text.{Text}

pub data JobStatus : Type 0 where
  queued blocked running skipped done failed timedout cancelled : JobStatus

-- The waves by which tenants are migrated; `named` is any other wave than the two in the source.
pub data Wave : Type 0 where
  canary paused : Wave
  named : Text → Wave

pub record Job : Type 0 where
  pub id : ℕ
  pub tenant_id : ℕ
  pub target_sha : ℕ
  pub timeout_minutes : ℕ
  pub retry_count : ℕ
  pub migration_dry_run : Option Bool
  pub status : JobStatus
  pub enqueued_at : ℕ
  pub started_at : Option ℕ
  pub heartbeat_at : Option ℕ
  pub finished_at : Option ℕ
  pub blocked_until : Option ℕ
  pub runner_host : Option Text
  pub snapshot_id : Option Text
  pub error_excerpt : Option Text

pub record Tenant : Type 0 where
  pub id : ℕ
  pub slug : Text
  pub db_name : Text
  pub maintenance_window : Text
  pub tz : Text
  pub last_migrated_sha : Option ℕ
  pub wave : Option Wave
  pub override_until : Option ℕ
  pub updated_at : Option ℕ

pub record Db : Type 0 where
  pub jobs : List Job
  pub tenants : List Tenant

-- `JobRow`: a job joined with what the runner needs of its tenant.
pub record JobRow : Type 0 where
  pub id : ℕ
  pub tenant_id : ℕ
  pub tenant_slug : Text
  pub tenant_db_name : Text
  pub target_sha : ℕ
  pub timeout_minutes : ℕ
  pub retry_count : ℕ
  pub maintenance_window : Text
  pub tz : Text
  pub last_migrated_sha : Option ℕ
  pub wave : Option Wave
  pub override_until : Option ℕ
  pub migration_dry_run : Bool
