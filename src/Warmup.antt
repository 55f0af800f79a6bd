-- ===== src/Warmup.antt =====
-- The warm-up of the DeepGEMM kernels, vllm_sail/model_executor/warmup/deep_gemm_warmup.py.
pub mod Layout
pub mod Values
pub mod Layers
pub mod Eligible
pub mod Dense
pub mod Grouped
pub mod Count
pub mod Model
pub mod Coverage
pub mod Once
pub mod Single
pub mod Announced
pub mod Loops
pub mod Fits
pub mod Groups
pub mod Kinds
pub mod Total
pub mod Bounds
pub mod Tests
