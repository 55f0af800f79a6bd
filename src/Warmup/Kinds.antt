-- ===== src/Warmup/Kinds.antt =====
-- Lemmas on the warm-ups of each kind of kernel in `deep_gemm_warmup`.
use vllm_sail.Base.{ℕ, ◌+◌, ◌≡◌, refl, ◌∙◌, true, Option, some}
use vllm_sail.Base.{List, [], ◌∷◌, all, nat_eq}
use vllm_sail.Base.Failing.{◌>>=◌}
use vllm_sail.Warmup.Layers.{Layer, Settings}
use vllm_sail.Warmup.Eligible.{
  fp8_linear, int8_linear, bf16_linear, fp8_experts, int8_experts, bf16_experts, fp4_experts,
  fp4_masked_experts, w4a16_experts,
}
use vllm_sail.Warmup.Dense.{
  Process, Warm, fp8, int8, bf16, grouped_fp8, grouped_int8, grouped_bf16, grouped_fp4, masked_fp4,
  grouped_w4a16, masked_w4a16, kernel_eq, fp8_gemm_nt_warmup, int8_gemm_nt_warmup,
  bf16_gemm_nt_warmup,
}
use vllm_sail.Warmup.Grouped.{
  contiguous_warmup, masked_warmup, grouped_fp8_warmup, grouped_int8_warmup, grouped_bf16_warmup,
  grouped_fp4_warmup, grouped_w4a16_warmup, masked_fp4_warmup, masked_w4a16_warmup,
}
use vllm_sail.Warmup.Count.{
  contiguous_count, masked_count, count_warmup_iterations, count_warmup_iterations_int8,
  count_warmup_iterations_bf16, count_warmup_iterations_fp4, count_warmup_iterations_fp4_masked,
  count_warmup_iterations_w4a16, count_warmup_iterations_w4a16_masked,
}
use vllm_sail.Warmup.Model.{
  deepgemm_fp8_gemm_nt_warmup, deepgemm_int8_gemm_nt_warmup, deepgemm_bf16_gemm_nt_warmup,
  deepgemm_grouped_fp8_warmup, deepgemm_grouped_int8_warmup, deepgemm_grouped_bf16_warmup,
  deepgemm_grouped_fp4_warmup, deepgemm_masked_fp4_warmup, deepgemm_grouped_w4a16_warmup,
  deepgemm_masked_w4a16_warmup,
}
use vllm_sail.Warmup.Single.{RunsAlone}
use vllm_sail.Warmup.Fits.{is_three_dimensional, contiguous-Limits, masked-Limits}
use vllm_sail.Warmup.Groups.{outside, Makes, Makes-Makes, experts-Makes, both-Makes}

-- The warm-ups for one kind of kernel.
module _ (e : Settings) (p : Process) (max_tokens : ℕ) (layers : List Layer) where
  abbrev pub fp8_group : Warm → Option Warm
  fp8_group v =
      deepgemm_fp8_gemm_nt_warmup e p max_tokens layers v
      >>= deepgemm_grouped_fp8_warmup e p max_tokens layers

  abbrev pub int8_group : Warm → Option Warm
  int8_group v =
      deepgemm_int8_gemm_nt_warmup e p max_tokens layers v
      >>= deepgemm_grouped_int8_warmup e p max_tokens layers

  abbrev pub bf16_group : Warm → Option Warm
  bf16_group v =
      deepgemm_bf16_gemm_nt_warmup e p max_tokens layers v
      >>= deepgemm_grouped_bf16_warmup e p max_tokens layers

  abbrev pub fp4_group : Warm → Option Warm
  fp4_group v =
      deepgemm_grouped_fp4_warmup e p max_tokens layers v
      >>= deepgemm_masked_fp4_warmup e p max_tokens layers

  abbrev pub w4a16_group : Warm → Option Warm
  w4a16_group v =
      deepgemm_grouped_w4a16_warmup e p max_tokens layers v
      >>= deepgemm_masked_w4a16_warmup e p max_tokens layers

module _ (e : Settings) (p : Process) (max_tokens : ℕ) (layers : List Layer)
    (three : all is_three_dimensional layers ≡ true) (w v : Warm) (single : RunsAlone p v) where
  pub fp8-Makes :
      (n : ℕ)
      → count_warmup_iterations e p max_tokens layers w ≡ some n
      → v.cache fp8 ≡ w.cache fp8
      → v.cache grouped_fp8 ≡ w.cache grouped_fp8
      → Makes p (fp8 ∷ grouped_fp8 ∷ []) (fp8_group e p max_tokens layers) v n
  unfolding count_warmup_iterations deepgemm_fp8_gemm_nt_warmup deepgemm_grouped_fp8_warmup
      fp8_gemm_nt_warmup grouped_fp8_warmup contiguous_warmup fp8_experts fp8_linear kernel_eq
  fp8-Makes n h dense grouped =
      both-Makes p max_tokens e _ _ grouped_fp8 _ (contiguous_count p max_tokens)
        (contiguous-Limits p max_tokens) layers three (fp8_linear e) fp8 (λ x. refl) refl v n single
        (rw (dense, grouped) h)

  pub int8-Makes :
      (n : ℕ)
      → count_warmup_iterations_int8 e p max_tokens layers w ≡ some n
      → v.cache int8 ≡ w.cache int8
      → v.cache grouped_int8 ≡ w.cache grouped_int8
      → Makes p (int8 ∷ grouped_int8 ∷ []) (int8_group e p max_tokens layers) v n
  unfolding count_warmup_iterations_int8 deepgemm_int8_gemm_nt_warmup deepgemm_grouped_int8_warmup
      int8_gemm_nt_warmup grouped_int8_warmup contiguous_warmup int8_experts int8_linear kernel_eq
  int8-Makes n h dense grouped =
      both-Makes p max_tokens e _ _ grouped_int8 _ (contiguous_count p max_tokens)
        (contiguous-Limits p max_tokens) layers three (int8_linear e) int8 (λ x. refl) refl v n
        single (rw (dense, grouped) h)

  pub bf16-Makes :
      (n : ℕ)
      → count_warmup_iterations_bf16 e p max_tokens layers w ≡ some n
      → v.cache bf16 ≡ w.cache bf16
      → v.cache grouped_bf16 ≡ w.cache grouped_bf16
      → Makes p (bf16 ∷ grouped_bf16 ∷ []) (bf16_group e p max_tokens layers) v n
  unfolding count_warmup_iterations_bf16 deepgemm_bf16_gemm_nt_warmup deepgemm_grouped_bf16_warmup
      bf16_gemm_nt_warmup grouped_bf16_warmup contiguous_warmup bf16_experts bf16_linear kernel_eq
  bf16-Makes n h dense grouped =
      both-Makes p max_tokens e _ _ grouped_bf16 _ (contiguous_count p max_tokens)
        (contiguous-Limits p max_tokens) layers three (bf16_linear e) bf16 (λ x. refl) refl v n
        single (rw (dense, grouped) h)

  grouped_fp4-Makes :
      (n : ℕ)
      → count_warmup_iterations_fp4 e p max_tokens layers w ≡ some n
      → v.cache grouped_fp4 ≡ w.cache grouped_fp4
      → Makes p (grouped_fp4 ∷ []) (deepgemm_grouped_fp4_warmup e p max_tokens layers) v n
  unfolding count_warmup_iterations_fp4 deepgemm_grouped_fp4_warmup grouped_fp4_warmup
      contiguous_warmup fp4_experts
  grouped_fp4-Makes n h same =
      experts-Makes p max_tokens e _ _ grouped_fp4 _ (contiguous_count p max_tokens)
        (contiguous-Limits p max_tokens) layers three v n single (rw same h)

  masked_fp4-Makes :
      (n : ℕ)
      → count_warmup_iterations_fp4_masked e p max_tokens layers w ≡ some n
      → v.cache masked_fp4 ≡ w.cache masked_fp4
      → Makes p (masked_fp4 ∷ []) (deepgemm_masked_fp4_warmup e p max_tokens layers) v n
  unfolding count_warmup_iterations_fp4_masked deepgemm_masked_fp4_warmup masked_fp4_warmup
      masked_warmup fp4_masked_experts
  masked_fp4-Makes n h same =
      experts-Makes p max_tokens e _ _ masked_fp4 _ (masked_count p max_tokens)
        (masked-Limits p max_tokens) layers three v n single (rw same h)

  grouped_w4a16-Makes :
      (n : ℕ)
      → count_warmup_iterations_w4a16 e p max_tokens layers w ≡ some n
      → v.cache grouped_w4a16 ≡ w.cache grouped_w4a16
      → Makes p (grouped_w4a16 ∷ []) (deepgemm_grouped_w4a16_warmup e p max_tokens layers) v n
  unfolding count_warmup_iterations_w4a16 deepgemm_grouped_w4a16_warmup grouped_w4a16_warmup
      contiguous_warmup w4a16_experts
  grouped_w4a16-Makes n h same =
      experts-Makes p max_tokens e _ _ grouped_w4a16 _ (contiguous_count p max_tokens)
        (contiguous-Limits p max_tokens) layers three v n single (rw same h)

  masked_w4a16-Makes :
      (n : ℕ)
      → count_warmup_iterations_w4a16_masked e p max_tokens layers w ≡ some n
      → v.cache masked_w4a16 ≡ w.cache masked_w4a16
      → Makes p (masked_w4a16 ∷ []) (deepgemm_masked_w4a16_warmup e p max_tokens layers) v n
  unfolding count_warmup_iterations_w4a16_masked deepgemm_masked_w4a16_warmup masked_w4a16_warmup
      masked_warmup w4a16_experts
  masked_w4a16-Makes n h same =
      experts-Makes p max_tokens e _ _ masked_w4a16 _ (masked_count p max_tokens)
        (masked-Limits p max_tokens) layers three v n single (rw same h)

-- The two layouts, one behind the other.
module _ (e : Settings) (p : Process) (max_tokens : ℕ) (layers : List Layer)
    (three : all is_three_dimensional layers ≡ true) (w v : Warm) (single : RunsAlone p v) where
  pub fp4-Makes :
      (m n total : ℕ)
      → total ≡ m + n
      → count_warmup_iterations_fp4 e p max_tokens layers w ≡ some m
      → count_warmup_iterations_fp4_masked e p max_tokens layers w ≡ some n
      → v.cache grouped_fp4 ≡ w.cache grouped_fp4
      → v.cache masked_fp4 ≡ w.cache masked_fp4
      → Makes p (grouped_fp4 ∷ masked_fp4 ∷ []) (fp4_group e p max_tokens layers) v total
  unfolding outside kernel_eq
  fp4-Makes m n total sum h masked_h grouped masked = rw sum (
      Makes-Makes p (grouped_fp4 ∷ []) (masked_fp4 ∷ [])
        (deepgemm_grouped_fp4_warmup e p max_tokens layers)
        (deepgemm_masked_fp4_warmup e p max_tokens layers) v m n
        (grouped_fp4-Makes e p max_tokens layers three w v single m h grouped)
        (λ u a.
          masked_fp4-Makes e p max_tokens layers three w u a.single n masked_h
            (a.others masked_fp4 refl ∙ masked)))

  pub w4a16-Makes :
      (m n total : ℕ)
      → total ≡ m + n
      → count_warmup_iterations_w4a16 e p max_tokens layers w ≡ some m
      → count_warmup_iterations_w4a16_masked e p max_tokens layers w ≡ some n
      → v.cache grouped_w4a16 ≡ w.cache grouped_w4a16
      → v.cache masked_w4a16 ≡ w.cache masked_w4a16
      → Makes p (grouped_w4a16 ∷ masked_w4a16 ∷ []) (w4a16_group e p max_tokens layers) v total
  unfolding outside kernel_eq
  w4a16-Makes m n total sum h masked_h grouped masked = rw sum (
      Makes-Makes p (grouped_w4a16 ∷ []) (masked_w4a16 ∷ [])
        (deepgemm_grouped_w4a16_warmup e p max_tokens layers)
        (deepgemm_masked_w4a16_warmup e p max_tokens layers) v m n
        (grouped_w4a16-Makes e p max_tokens layers three w v single m h grouped)
        (λ u a.
          masked_w4a16-Makes e p max_tokens layers three w u a.single n masked_h
            (a.others masked_w4a16 refl ∙ masked)))
