-- ===== src/Patch.antt =====
-- The patch framework of vllm_sail/patch/utils.py.
pub mod Path
pub mod Heap
pub mod Monad
pub mod Attributes
pub mod Install
pub mod Run
pub mod Commit
pub mod Quiet
pub mod Atomic
pub mod Installed
pub mod Steps
pub mod Module
pub mod Class
pub mod Descriptor
pub mod Value
pub mod Tests
