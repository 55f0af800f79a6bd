-- ===== src/Runner.antt =====
-- The runner of scripts/ci/ppu_ops_runner.py.
pub mod Nodes
pub mod Evidence
pub mod Group
pub mod Passed
pub mod Accepted
pub mod Whole
pub mod Inputs
pub mod Pod
pub mod Execute
pub mod Blamed
pub mod Ended
pub mod Tests
