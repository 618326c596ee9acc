-- ===== src/Migration/Runner.antt =====
-- The loop of infra/runners/migration_runner/runner.py.
--
-- `Events` is what an iteration meets and what it results in, `Parts` its helpers, and `Iteration`
-- the iteration itself, step by step as `_process` and `_run_odoo` go.
pub mod Events
pub mod Parts
pub mod Iteration
pub mod Settling
pub mod Retaking
pub mod Starting
pub mod Versions
pub mod Retries
pub mod Rule
pub mod Crashes
