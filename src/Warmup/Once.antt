-- ===== src/Warmup/Once.antt =====
-- Properties of a dense weight's second warm-up.
use vllm_sail.Base.{ℕ, ◌≡◌, true, some, inl, inr, Bool-cases, List}
use vllm_sail.Base.{contains, nat_eq, list_eq, ==_refl}
use mathlib.Core.Option.{some-injective}
use vllm_sail.Base.{all}
use vllm_sail.Base.Failing.{then_some, then_require}
use vllm_sail.Warmup.Layout.{shard_m_values_chunked}
use vllm_sail.Warmup.Dense.{
  Process, Warm, Kernel, fp8, remember, kernel_eq, warm_values, dense_values, dense_warmup,
  fp8_gemm_nt_warmup,
}

-- The size is remembered.
pub warm_values-remembers :
    (p : Process) (kernel : Kernel) (s m_values : List ℕ) (w v : Warm)
    → warm_values p kernel s m_values w ≡ some v
    → contains (v.cache kernel) s ≡ true
unfolding warm_values remember
warm_values-remembers p kernel s m_values w v h =
    let (sharded, _, k) =
      then_some (shard_m_values_chunked w.local_rank_info p.ranks m_values) _ h in
    let (_, k1) = then_require (all (p.accepts kernel s) sharded.0) _ k in
    rw (← some-injective _ v k1) (rw (==_refl kernel) (rw (==_refl s)))

module _ (p : Process) (kernel : Kernel) (s : List ℕ) (max_tokens again : ℕ) (w v : Warm) where
  dense_warmup-remembers :
      dense_warmup p kernel s max_tokens w ≡ some v → contains (v.cache kernel) s ≡ true
  unfolding dense_warmup
  dense_warmup-remembers h = elim (Bool-cases (contains (w.cache kernel) s)) [
    | inl known ↦ let e : w ≡ v = some-injective w v (rw known at h) in rw (← e) known
    | inr new ↦
        let (ms, _, k) = then_some (dense_values p s max_tokens) _ (rw new at h) in
        warm_values-remembers p kernel s ms w v k
  ]

  -- Where a warm-up of a dense weight's size with a kernel succeeds, another one of that size with
  -- that kernel, for any number of tokens, leaves the process as it is and so calls no kernel.
  pub dense_warmup-dense_warmup :
      dense_warmup p kernel s max_tokens w ≡ some v → dense_warmup p kernel s again v ≡ some v
  unfolding dense_warmup
  dense_warmup-dense_warmup h = rw (dense_warmup-remembers h)

-- Where a warm-up of a dense weight's size with the FP8 kernel succeeds, another one of that size, for
-- any number of tokens, leaves the process as it is and so calls no kernel.
pub fp8-fp8 :
    (p : Process) (s : List ℕ) (max_tokens again : ℕ) (w v : Warm)
    → fp8_gemm_nt_warmup p s max_tokens w ≡ some v
    → fp8_gemm_nt_warmup p s again v ≡ some v
unfolding fp8_gemm_nt_warmup
fp8-fp8 p = dense_warmup-dense_warmup p fp8
