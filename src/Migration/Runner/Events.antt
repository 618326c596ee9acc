-- ===== src/Migration/Runner/Events.antt =====
-- What infra/runners/migration_runner/runner.py meets in one iteration, and what the iteration
-- results in.
use odoo_custom.Prelude.{ℕ, Bool, List, Option}
use odoo_custom.Prelude.Int.{ℤ}
use odoo_custom.Prelude.Text.{Text}
use odoo_custom.Migration.Schema.{Db}
use odoo_custom.Migration.Heartbeat.{Beat}

-- `take_snapshot` returns a snapshot's id, raises SnapshotError, or raises anything else.
pub data SnapshotOutcome : Type 0 where
  taken snapshot_error : Text → SnapshotOutcome
  snapshot_crash : SnapshotOutcome

pub record Exit : Type 0 where
  pub returncode : ℤ
  pub stderr : Text

-- A child process: the turns of its heartbeat thread, and what each of the three calls of
-- `communicate` returns, `none` for TimeoutExpired. The last call has no timeout.
pub record Process : Type 0 where
  pub pid : ℕ
  pub beats : List Beat
  pub first_wait : Option Exit
  pub second_wait : Option Exit
  pub last_wait : Exit

-- `subprocess.Popen` raises FileNotFoundError, or starts a process.
pub data Spawn : Type 0 where
  file_not_found : Text → Spawn
  started : Process → Spawn

-- The places of an iteration between two transactions.
pub data Point : Type 0 where
  after_claim after_snapshot after_run : Point

pub record World : Type 0 where
  pub runner_host : Text
  pub claim_now : ℕ
  pub locked : ℕ → Bool
  pub clock : ℕ
  pub tx_now : ℕ
  pub global_override : Bool
  pub snapshot : SnapshotOutcome
  pub can_create_database : Bool
  pub can_drop_database : Bool
  pub spawn : Spawn
  pub others : Point → Db → Db

-- The statuses of `RunResult`.
pub data RunStatus : Type 0 where
  idle skipped blocked done failed timedout cancelled retry : RunStatus

-- The control plane's database, and the names of the tenant databases on the cluster.
pub record State : Type 0 where
  pub db : Db
  pub databases : List Text

pub data Signal : Type 0 where
  sigterm sigkill : Signal

-- How an iteration ended: its `RunResult`, or `none` if it raised; the state that it left; the
-- databases on which it has started Odoo; the signals that it has sent to the process.
pub record Turn : Type 0 where
  pub outcome : Option (Option ℕ × RunStatus)
  pub state : State
  pub odoo_on : List Text
  pub signals : List Signal
