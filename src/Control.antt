-- ===== src/Control.antt =====
-- The CI controller of scripts/ci/ppu_ci_command.py.
pub mod Outcome
pub mod Authorize
pub mod Runs
pub mod Found
pub mod Launch
pub mod Dispatch
pub mod Wheels
pub mod Reuse
pub mod Cancel
pub mod Cancelled
pub mod Retried
pub mod Latest
pub mod Allowed
pub mod Command
pub mod Asked
pub mod Commanded
pub mod Report
pub mod Tests
