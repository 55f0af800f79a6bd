-- ===== src/Warmup/Dense.antt =====
-- The warm-up of dense weights, vllm_sail/model_executor/warmup/deep_gemm_warmup.py: which kernel
-- calls it makes, and which sizes it remembers. The buffers, the scales and the progress bar are
-- left out.
use vllm_sail.Base.{ℕ, String, Option, none, some}
use vllm_sail.Base.{List, [], ◌∷◌, ◌++◌, map, Eq, ◌==◌, contains, nat_eq, list_eq, if◌then◌else◌}
use vllm_sail.Base.{Bool, all}
use vllm_sail.Base.Failing.{◌>>=◌, ◌>>◌, require}
use vllm_sail.Warmup.Layout.{Ranks, shard_m_values_chunked}
use vllm_sail.Warmup.Values.{get_gemm_nt_m_values}

-- The kernels that are warmed up. Each has a cache of its own.
pub data Kernel : Type 0 where
  fp8 int8 bf16 grouped_fp8 grouped_int8 grouped_bf16 grouped_fp4 masked_fp4 grouped_w4a16
        masked_w4a16 :
      Kernel

Kernel-discrete : Discrete Kernel
Kernel-discrete = hlevel

instance unfoldable pub kernel_eq : Eq Kernel
unfolding Kernel-discrete
kernel_eq = record { dec = Kernel-discrete }

-- A call of a kernel: the weight's size, and the number of tokens.
pub record Call : Type 0 where
  pub kernel : Kernel
  pub size : List ℕ
  pub num_tokens : ℕ

-- The module's globals, and the calls so far. `cache` are the sets of sizes.
pub record Warm : Type 0 where
  pub local_rank_info : Option (ℕ × ℕ)
  pub cache : Kernel → List (List ℕ)
  pub calls : List Call

-- What the process reads. `compute_aligned_m` is vLLM's `compute_aligned_M` without metadata, of the
-- tokens, the experts for a token, the experts and the block size. `accepts` tells whether a call of a
-- kernel, for a weight's size and a number of tokens, returns; it raises where the kernel is missing.
pub record Process : Type 0 where
  pub ranks : Option Ranks
  pub warmup : String
  pub num_sms : ℕ
  pub cdiv : ℕ → ℕ → ℕ
  pub dp_world_size : ℕ
  pub block_m : ℕ
  pub compute_aligned_m : ℕ → ℕ → ℕ → ℕ → ℕ
  pub accepts : Kernel → List ℕ → ℕ → Bool

-- `CACHE.add(w.size())`
unfoldable pub remember : Kernel → List ℕ → Warm → Warm
unfolding kernel_eq
remember kernel s w = record w { cache = λ j. if j == kernel then s ∷ w.cache j else w.cache j }

-- The calls of a kernel for a rank's part of the token counts, behind which the size is remembered.
-- What was done before a call that raises is not told.
unfoldable pub warm_values : Process → Kernel → List ℕ → List ℕ → Warm → Option Warm
unfolding shard_m_values_chunked remember
warm_values p kernel s m_values w = do
  sharded ← shard_m_values_chunked w.local_rank_info p.ranks m_values
  require (all (p.accepts kernel s) sharded.0)
  some (
      remember kernel s (record w {
        calls =
            w.calls ++ map (λ m. record { kernel = kernel; size = s; num_tokens = m }) (sharded.0);
        local_rank_info = sharded.1;
      }))

-- `n, k = w.size()`, then the token counts for `n`.
unfoldable pub dense_values : Process → List ℕ → ℕ → Option (List ℕ)
unfolding get_gemm_nt_m_values
dense_values p (n ∷ k ∷ []) max_tokens = get_gemm_nt_m_values p.cdiv p.num_sms p.warmup n max_tokens
dense_values p _ max_tokens = none

-- The shape of the three functions for dense weights.
unfoldable pub dense_warmup : Process → Kernel → List ℕ → ℕ → Warm → Option Warm
unfolding warm_values dense_values list_eq nat_eq
dense_warmup p kernel s max_tokens w =
    if contains (w.cache kernel) s
    then some w
    else dense_values p s max_tokens >>= λ m_values. warm_values p kernel s m_values w

-- `_deepgemm_fp8_gemm_nt_warmup`
unfoldable pub fp8_gemm_nt_warmup : Process → List ℕ → ℕ → Warm → Option Warm
unfolding dense_warmup
fp8_gemm_nt_warmup p = dense_warmup p fp8

-- `_deepgemm_int8_gemm_nt_warmup`
unfoldable pub int8_gemm_nt_warmup : Process → List ℕ → ℕ → Warm → Option Warm
unfolding dense_warmup
int8_gemm_nt_warmup p = dense_warmup p int8

-- `_deepgemm_bf16_gemm_nt_warmup`
unfoldable pub bf16_gemm_nt_warmup : Process → List ℕ → ℕ → Warm → Option Warm
unfolding dense_warmup
bf16_gemm_nt_warmup p = dense_warmup p bf16
