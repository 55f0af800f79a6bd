-- ===== src/Warmup/Total.antt =====
-- Properties of `deep_gemm_warmup` and its counts.
use mathlib.Core.Option.{some-injective}
use mathlib.Core.Path.{subst}
use vllm_sail.Base.{ℕ, ◌+◌, ◌≡◌, refl, true, some, Bool-cases, inl, inr}
use vllm_sail.Base.{List, arith, all, length, nat_eq}
use vllm_sail.Base.Failing.{then_some}
use vllm_sail.Warmup.Layers.{Layer, Settings}
use vllm_sail.Warmup.Dense.{
  Process, Warm, int8, bf16, grouped_int8, grouped_bf16, grouped_fp4, masked_fp4, grouped_w4a16,
  masked_w4a16, kernel_eq,
}
use vllm_sail.Warmup.Count.{
  count_warmup_iterations, count_warmup_iterations_int8, count_warmup_iterations_bf16,
  count_warmup_iterations_fp4, count_warmup_iterations_fp4_masked, count_warmup_iterations_w4a16,
  count_warmup_iterations_w4a16_masked,
}
use vllm_sail.Warmup.Model.{Totals, count_totals, nothing_to_do, warm_all, deep_gemm_warmup}
use vllm_sail.Warmup.Kinds.{
  fp8_group, int8_group, bf16_group, fp4_group, w4a16_group, fp8-Makes, int8-Makes, bf16-Makes,
  fp4-Makes, w4a16-Makes,
}
use vllm_sail.Warmup.Single.{RunsAlone}
use vllm_sail.Warmup.Fits.{is_three_dimensional}
use vllm_sail.Warmup.Groups.{outside, Made-Made, if_any-Makes}

-- The number of calls that is announced.
abbrev pub announced : Totals → ℕ
announced t = t.total + t.total_int8 + t.total_bf16 + t.total_fp4 + t.total_w4a16

module _ (e : Settings) (p : Process) (max_tokens : ℕ) (layers : List Layer) (w : Warm) where
  -- The counts, one by one.
  record Counts (t : Totals) : Type 0 where
    fp4 : ℕ
    fp4_masked : ℕ
    w4a16 : ℕ
    w4a16_masked : ℕ
    counted_fp8 : count_warmup_iterations e p max_tokens layers w ≡ some t.total
    counted_int8 : count_warmup_iterations_int8 e p max_tokens layers w ≡ some t.total_int8
    counted_bf16 : count_warmup_iterations_bf16 e p max_tokens layers w ≡ some t.total_bf16
    counted_fp4 : count_warmup_iterations_fp4 e p max_tokens layers w ≡ some fp4
    counted_fp4_masked :
        count_warmup_iterations_fp4_masked e p max_tokens layers w ≡ some fp4_masked
    counted_w4a16 : count_warmup_iterations_w4a16 e p max_tokens layers w ≡ some w4a16
    counted_w4a16_masked :
        count_warmup_iterations_w4a16_masked e p max_tokens layers w ≡ some w4a16_masked
    sum_fp4 : t.total_fp4 ≡ fp4 + fp4_masked
    sum_w4a16 : t.total_w4a16 ≡ w4a16 + w4a16_masked

  count_totals-Counts : (t : Totals) → count_totals e p max_tokens layers w ≡ some t → Counts t
  unfolding count_totals
  count_totals-Counts t h =
      let (a, ha, h1) = then_some (count_warmup_iterations e p max_tokens layers w) _ h in
      let (b, hb, h2) = then_some (count_warmup_iterations_int8 e p max_tokens layers w) _ h1 in
      let (c, hc, h3) = then_some (count_warmup_iterations_bf16 e p max_tokens layers w) _ h2 in
      let (d, hd, h4) = then_some (count_warmup_iterations_fp4 e p max_tokens layers w) _ h3 in
      let (f, hf, h5) =
        then_some (count_warmup_iterations_fp4_masked e p max_tokens layers w) _ h4 in
      let (g, hg, h6) = then_some (count_warmup_iterations_w4a16 e p max_tokens layers w) _ h5 in
      let (i, hi, h7) =
        then_some (count_warmup_iterations_w4a16_masked e p max_tokens layers w) _ h6 in
      let e7 : record {
        total = a;
        total_int8 = b;
        total_bf16 = c;
        total_fp4 = d + f;
        total_w4a16 = g + i;
      }
          ≡ t =
        some-injective _ t h7 in
      subst Counts e7 (record {
        fp4 = d;
        fp4_masked = f;
        w4a16 = g;
        w4a16_masked = i;
        counted_fp8 = ha;
        counted_int8 = hb;
        counted_bf16 = hc;
        counted_fp4 = hd;
        counted_fp4_masked = hf;
        counted_w4a16 = hg;
        counted_w4a16_masked = hi;
        sum_fp4 = refl;
        sum_w4a16 = refl;
      })

  -- All warm-ups, one behind the other.
  warm_all-Made :
      all is_three_dimensional layers ≡ true
      → RunsAlone p w
      → (t : Totals) → Counts t
      → (v : Warm) × (warm_all e p max_tokens layers t w ≡ some v)
        × (length v.calls ≡ length w.calls + announced t)
  unfolding warm_all outside kernel_eq
  warm_all-Made three single t c =
      let (w1, made1, a1) =
        if_any-Makes p _ (fp8_group e p max_tokens layers) w t.total single
          (fp8-Makes e p max_tokens layers three w w single t.total c.counted_fp8 refl refl) in
      let (w2, made2, a2) =
        if_any-Makes p _ (int8_group e p max_tokens layers) w1 t.total_int8 a1.single (
          int8-Makes e p max_tokens layers three w w1 a1.single t.total_int8 c.counted_int8
            (a1.others int8 refl) (a1.others grouped_int8 refl)) in
      let b2 = Made-Made p _ _ w w1 w2 _ _ a1 a2 in
      let (w3, made3, a3) =
        if_any-Makes p _ (bf16_group e p max_tokens layers) w2 t.total_bf16 b2.single (
          bf16-Makes e p max_tokens layers three w w2 b2.single t.total_bf16 c.counted_bf16
            (b2.others bf16 refl) (b2.others grouped_bf16 refl)) in
      let b3 = Made-Made p _ _ w w2 w3 _ _ b2 a3 in
      let (w4, made4, a4) =
        if_any-Makes p _ (fp4_group e p max_tokens layers) w3 t.total_fp4 b3.single (
          fp4-Makes e p max_tokens layers three w w3 b3.single c.fp4 c.fp4_masked t.total_fp4
            c.sum_fp4 c.counted_fp4 c.counted_fp4_masked (b3.others grouped_fp4 refl)
            (b3.others masked_fp4 refl)) in
      let b4 = Made-Made p _ _ w w3 w4 _ _ b3 a4 in
      let (w5, made5, a5) =
        if_any-Makes p _ (w4a16_group e p max_tokens layers) w4 t.total_w4a16 b4.single (
          w4a16-Makes e p max_tokens layers three w w4 b4.single c.w4a16 c.w4a16_masked
            t.total_w4a16 c.sum_w4a16 c.counted_w4a16 c.counted_w4a16_masked
            (b4.others grouped_w4a16 refl) (b4.others masked_w4a16 refl)) in
      (
        w5,
        rw made1 (rw made2 (rw made3 (rw made4 made5))),
        (Made-Made p _ _ w w4 w5 _ _ b4 a5).called,
      )

  -- Where no weight of experts is other than three-dimensional, the process is alone on its node,
  -- and no call of a kernel raises, a model whose calls can be counted is warmed up:
  -- `deep_gemm_warmup` raises no exception, makes as many kernel calls as it has counted, and
  -- leaves the compile mode as it was.
  pub deep_gemm_warmup-counts :
      all is_three_dimensional layers ≡ true
      → RunsAlone p w
      → (t : Totals) → count_totals e p max_tokens layers w ≡ some t
      → (mode : ℕ)
      → (v : Warm) × (deep_gemm_warmup e p max_tokens layers mode w
          ≡ record { compile_mode = mode; warm = some v })
        × (length v.calls ≡ length w.calls + announced t)
  unfolding deep_gemm_warmup
  deep_gemm_warmup-counts three single t h mode =
      elim (Bool-cases (nothing_to_do e p max_tokens layers t)) [
        | inl nothing ↦ (w, rw h (rw nothing), ground arith)
        | inr something ↦
            let (v, made, called) = warm_all-Made three single t (count_totals-Counts t h) in
            (v, rw h (rw something (rw made)), called)
      ]
