-- ===== src/Select.antt =====
-- The operator-test selection of scripts/ci/ppu_ops_select.py.
pub mod Formats
pub mod Config
pub mod Choice
pub mod Routes
pub mod Environment
pub mod Build
pub mod Selection
pub mod Validate
pub mod Tests
pub mod Trust
