-- ===== src/Agents.antt =====
-- The agents of agents/agents: the Slack intake, a bridge between Slack threads and GitHub issues.
--
-- `State` has the port that keeps its state and the two adapters of it, `Intake` the handlers, and
-- `Sweep` the sweep of the spec generator.
pub mod State
pub mod Intake
pub mod Sweep
mod Tests
