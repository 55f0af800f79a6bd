-- ===== src/Moe.antt =====
-- The MoE backends of vllm_sail/registry/moe_backends.
pub mod Backend
pub mod Fp8
pub mod Int8
pub mod Unquantized
pub mod Wna16
pub mod Mxfp4
pub mod Explicit
pub mod Tried
pub mod Rebind
pub mod Placed
pub mod Items
pub mod Rebound
pub mod Priority
pub mod Tests
