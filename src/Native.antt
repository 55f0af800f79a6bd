-- ===== src/Native.antt =====
-- The reader of the kernel corpus and the tool that ports it, vllm_sail/native.
pub mod Manifest
pub mod Sound
pub mod Division
pub mod Closure
pub mod Grown
pub mod Closed
pub mod Reached
pub mod Render
pub mod Quoted
pub mod Prune
pub mod Pruned
pub mod Kept
pub mod Declared
pub mod Tests
