-- ===== src/Compat.antt =====
-- The version check of vllm_sail/compat.py.
pub mod Version
pub mod Check
pub mod Range
pub mod Queries
pub mod Tests
