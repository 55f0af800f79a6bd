-- ===== src/Warmup/Fits.antt =====
-- What the modules that are taken have in common, and how many calls a layer of experts costs.
use Prim.Native.Nat.{max}
use native.Mathlib.Nat.{div-eq_of_lt, div-eq-sub-div, le-div_iff_mul-le, mul-le-mul_right, one-mul}
use mathlib.Core.Option.{some-injective, none-ne-some}
use vllm_sail.Base.{
  ℕ, ◌+◌, ◌*◌, ◌/◌, ◌-◌, ◌≤◌, ◌≡◌, refl, sym, ap, ◌∙◌, true, false, Bool, ◌&&◌, Option, some, none,
  Bool-cases, Option-cases, both_true, inl, inr,
}
use vllm_sail.Base.{
  List, [], ◌∷◌, arith, all, length, contains, ◌==◌, ==_true, nat_eq, ltb, leb, if◌then◌else◌,
}
use vllm_sail.Base.Failing.{then_some, then_require, ◌>>=◌, ◌>>◌, require}
use vllm_sail.Warmup.Layers.{
  Layer, bfloat16, float16, dtype_eq, linear, moe, other_layer, Moe, Tensor, Experts, QuantConfig,
  Settings, MoeWeights, extract_moe, is_other_backend,
}
use vllm_sail.Warmup.Eligible.{experts_layer, passes, holds_experts}
use vllm_sail.Warmup.Dense.{
  Process, Kernel, fp8, int8, bf16, grouped_fp8, grouped_int8, grouped_bf16, grouped_fp4,
  masked_fp4, grouped_w4a16, masked_w4a16,
}
use vllm_sail.Warmup.Grouped.{
  first, is_unpacked, ceil_div, tokens_per_expert, get_grouped_gemm_params, max_tokens_per_expert,
}
use vllm_sail.Warmup.Count.{contiguous_values, contiguous_count, masked_count}
use vllm_sail.Warmup.Model.{collect}
use vllm_sail.Warmup.Loops.{weights_fit}

abbrev has_three : Option Tensor → Bool
unfolding nat_eq
has_three none = true
has_three (some t) = length t.size == 3

-- The weights of a layer of experts are three-dimensional.
unfoldable pub is_three_dimensional : Layer → Bool
unfolding nat_eq
is_three_dimensional (moe m) = has_three m.w13_weight && has_three m.w2_weight
is_three_dimensional _ = true

unpacked_lem : (kernel : Kernel) (s : List ℕ) → (length s == 3) ≡ true → is_unpacked kernel s ≡ true
unpacked_lem fp8 s h = h
unpacked_lem int8 s h = h
unpacked_lem bf16 s h = h
unpacked_lem grouped_fp8 s h = h
unpacked_lem grouped_int8 s h = h
unpacked_lem grouped_bf16 s h = h
unpacked_lem grouped_fp4 s h = h
unpacked_lem masked_fp4 s h = h
unpacked_lem grouped_w4a16 s h = let three : length s ≡ 3 = ==_true (length s) 3 h in rw three
unpacked_lem masked_w4a16 s h = let three : length s ≡ 3 = ==_true (length s) 3 h in rw three

-- With or without scales, the same weights are returned.
same_weights :
    (b c : Bool) (o1 o2 : Option Tensor) (r m : MoeWeights)
    → (if b then some r else (require c >> (o1 >>= λ _. o2 >>= λ _. some r))) ≡ some m
    → r ≡ m
same_weights true c o1 o2 r m h = some-injective r m h
same_weights false c o1 o2 r m h =
    let (_, k) = then_require c _ h in
    let (_, _, j) = then_some o1 _ k in let (_, _, i) = then_some o2 _ j in some-injective r m i

extract_moe-weights :
    (x : Moe) (m : MoeWeights)
    → extract_moe x ≡ some m
    → (x.w13_weight ≡ some m.w13) × (x.w2_weight ≡ some m.w2)
unfolding extract_moe dtype_eq
extract_moe-weights x m h =
    let (w13, has13, k) = then_some x.w13_weight _ h in
    let (w2, has2, j) = then_some x.w2_weight _ k in
    let e : record { w13 = w13; w2 = w2; num_topk = x.top_k } ≡ m =
      same_weights (contains (bfloat16 ∷ float16 ∷ []) w13.dtype) _ x.w13_scale x.w2_scale _ m j in
    (has13 ∙ ap (λ (q : MoeWeights). some q.w13) e, has2 ∙ ap (λ (q : MoeWeights). some q.w2) e)

module _ (e : Settings) (test : QuantConfig → Option Bool) (wanted : Experts → Bool) where
  -- A layer of experts that is taken has its weights.
  experts_layer-extract :
      (x : Moe) (m : MoeWeights)
      → experts_layer e test wanted (moe x) ≡ some (some m)
      → extract_moe x ≡ some m
  unfolding experts_layer
  experts_layer-extract x m h = elim (Bool-cases (is_other_backend e.moe_backend)) [
    | inl b ↦ absurd (none-ne-some _ (some-injective none (some m) (rw b at h)))
    | inr b ↦
        let (passed, _, k) = then_some (passes e test x.quant_config) _ (rw b at h) in
        elim (Bool-cases (passed && holds_experts e wanted x.fused_experts)) [
          | inr c ↦ absurd (none-ne-some _ (some-injective none (some m) (rw c at k)))
          | inl c ↦
              let (w, took, j) = then_some (extract_moe x) _ (rw c at k) in
              took ∙ some-injective (some w) (some m) j
        ]
  ]

  weights_fit-moe :
      (kernel : Kernel) (l : Layer) (m : MoeWeights)
      → is_three_dimensional l ≡ true
      → experts_layer e test wanted l ≡ some (some m)
      → weights_fit kernel m ≡ true
  unfolding experts_layer is_three_dimensional
  weights_fit-moe kernel (moe x) m three h =
      let (has13, has2) = extract_moe-weights x m (experts_layer-extract x m h) in
      let (three13, three2) = both_true (has_three x.w13_weight) _ three in
      let fits13 : is_unpacked kernel m.w13.size ≡ true =
        unpacked_lem kernel m.w13.size (rw has13 at three13) in
      let fits2 : is_unpacked kernel m.w2.size ≡ true =
        unpacked_lem kernel m.w2.size (rw has2 at three2) in
      rw (fits13, fits2)
  weights_fit-moe kernel (linear x) m three h =
      absurd (none-ne-some _ (some-injective none (some m) h))
  weights_fit-moe kernel other_layer m three h =
      absurd (none-ne-some _ (some-injective none (some m) h))

  -- Of modules whose experts are three-dimensional, all that are taken can be unpacked.
  pub collect-weights_fit :
      (kernel : Kernel) (ls : List Layer) (ms : List MoeWeights)
      → all is_three_dimensional ls ≡ true
      → collect (experts_layer e test wanted) ls ≡ some ms
      → all (weights_fit kernel) ms ≡ true
  unfolding collect
  collect-weights_fit kernel [] ms three h = rw (← some-injective [] ms h) refl
  collect-weights_fit kernel (l ∷ ls) ms three h =
      let (three_l, three_ls) = both_true (is_three_dimensional l) _ three in
      let (o, took, k) = then_some (experts_layer e test wanted l) _ h in
      let (rest, collected, j) = then_some (collect (experts_layer e test wanted) ls) _ k in
      let fits = collect-weights_fit kernel ls rest three_ls collected in
      elim (Option-cases o) [
        | inl none_here ↦ rw (← some-injective rest ms (rw none_here at j)) fits
        | inr (m, some_here) ↦
            let fit = weights_fit-moe kernel l m three_l (took ∙ ap some some_here) in
            rw (← some-injective (m ∷ rest) ms (rw some_here at j)) (rw (fit, fits))
      ]

  -- A dense layer is no layer of experts.
  pub linear-apart :
      (dense : Layer → Option (Option (List ℕ)))
      → ((x : Moe) → dense (moe x) ≡ some none)
      → (l : Layer) (s : List ℕ) → dense l ≡ some (some s)
      → experts_layer e test wanted l ≡ some none
  unfolding experts_layer
  linear-apart dense no_dense (linear x) s h = refl
  linear-apart dense no_dense other_layer s h = refl
  linear-apart dense no_dense (moe x) s h =
      absurd (none-ne-some _ (some-injective none (some s) (sym (no_dense x) ∙ h)))

-- What is counted for a layer of experts is what its token counts are.
unfoldable pub Limits : Process → Option ℕ → Option ℕ → Type 0
Limits p limit n =
    (k : ℕ) → n ≡ some k → (max_m : ℕ) × (limit ≡ some max_m) × (max_m / p.block_m ≡ k)

contiguous_values_lem :
    (block_m max_m : ℕ) → ltb 0 block_m ≡ true → max_m / block_m ≡ contiguous_values block_m max_m
contiguous_values_lem block_m max_m positive = elim (Bool-cases (leb block_m max_m)) [
  | inl fits ↦ rw fits (div-eq-sub-div (ground arith) (ground arith))
  | inr short ↦ rw short (div-eq_of_lt (ground arith))
]

pub contiguous-Limits :
    (p : Process) (max_tokens : ℕ) (m : MoeWeights)
    → Limits p
        (get_grouped_gemm_params p m.w13.size m.w2.size m.num_topk max_tokens)
        (contiguous_count p max_tokens m)
unfolding Limits contiguous_count get_grouped_gemm_params
contiguous-Limits p max_tokens m k h =
    let (max_m, limited, same) =
      then_some (get_grouped_gemm_params p m.w13.size m.w2.size m.num_topk max_tokens) _ h in
    let (experts, has1, rest1) = then_some (first m.w13.size) _ limited in
    let (others, has2, rest2) = then_some (first m.w2.size) _ rest1 in
    let (equal, rest3) = then_require (experts == others) _ rest2 in
    let (positive, _) = then_require (ltb 0 p.block_m) _ rest3 in
    (
      max_m,
      limited,
      contiguous_values_lem p.block_m max_m positive
          ∙ some-injective (contiguous_values p.block_m max_m) k same,
    )

-- At least one block is needed.
ceil_div-positive : (t b : ℕ) → 1 ≤ t → 1 ≤ b → b ≤ ceil_div t b * b
ceil_div-positive t b one positive =
    let below : 1 * b ≤ t + b - 1 = omega (arith, one-mul b) in
    let one_block : 1 ≤ ceil_div t b = (le-div_iff_mul-le positive).1 below in
    omega (arith, mul-le-mul_right b one_block, one-mul b)

pub masked-Limits :
    (p : Process) (max_tokens : ℕ) (m : MoeWeights)
    → Limits p
        (max_tokens_per_expert p m.w13.size m.num_topk max_tokens)
        (masked_count p max_tokens m)
unfolding Limits masked_count get_grouped_gemm_params max_tokens_per_expert
masked-Limits p max_tokens m k h =
    let (max_m, limited, more) =
      then_some (get_grouped_gemm_params p m.w13.size m.w2.size m.num_topk max_tokens) _ h in
    let (experts, has1, rest1) = then_some (first m.w13.size) _ limited in
    let (others, has2, rest2) = then_some (first m.w2.size) _ rest1 in
    let (equal, rest3) = then_require (experts == others) _ rest2 in
    let (positive, _) = then_require (ltb 0 p.block_m) _ rest3 in
    let (num_experts, has, then') = then_some (first m.w13.size) _ more in
    let (some_experts, same) = then_require (ltb 0 num_experts) _ then' in
    let t = tokens_per_expert p num_experts m.num_topk max_tokens in
    let enough : p.block_m ≤ ceil_div t p.block_m * p.block_m =
      ceil_div-positive t p.block_m (omega arith) (ground arith) in
    let whole : max (ceil_div t p.block_m * p.block_m) p.block_m
        ≡ ceil_div t p.block_m * p.block_m =
      omega arith in
    (
      max (ceil_div t p.block_m * p.block_m) p.block_m,
      rw has (rw some_experts (rw positive)),
      rw whole (some-injective (ceil_div t p.block_m * p.block_m / p.block_m) k same),
    )
