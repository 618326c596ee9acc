-- ===== src/Migration.antt =====
-- The migration runner, infra/runners/migration_runner: a queue of migration jobs in the
-- control plane's database, and the process that claims a job, runs Odoo on the tenant's database
-- and records how it ended.
--
-- `Schema` has the rows, `Store` the transactions of db.py, `Window` the maintenance windows of
-- window.py, `Heartbeat` the thread of heartbeat.py and `Runner` the loop of runner.py; `Snapshot` has
-- snapshot.py, and `Rollback` the command line of rollback.py.
pub mod Schema
pub mod Store
pub mod Window
pub mod Heartbeat
pub mod Runner
pub mod Snapshot
pub mod Rollback
mod Samples
mod Tests
