-- ===== src/Warmup/Values.antt =====
-- The token counts that vllm_sail/model_executor/warmup/deep_gemm_warmup.py warms a weight up for.
use Prim.Native.Nat.{min}
use vllm_sail.Base.{ℕ, zero, suc, ◌*◌, ◌/◌, String, ◌&&◌, Option, some}
use vllm_sail.Base.{
  List, [], ◌∷◌, ◌++◌, map, select, ◌==◌, nat_eq, string_eq, ltb, leb, if◌then◌else◌,
}
use vllm_sail.Base.Failing.{◌>>◌, require}

-- `range(first, first + count)`
abbrev pub counting : ℕ → ℕ → List ℕ
counting first zero = []
counting first (suc count) = first ∷ counting (suc first) count

-- A number put into an ascending list of numbers, once.
unfoldable pub add_m : ℕ → List ℕ → List ℕ
unfolding nat_eq
add_m m [] = m ∷ []
add_m m (x ∷ xs) =
    let rest = add_m m xs in if m == x then x ∷ xs else if ltb m x then m ∷ x ∷ xs else x ∷ rest

-- `sorted(set(ms))`
unfoldable pub sorted_m : List ℕ → List ℕ
unfolding add_m
sorted_m [] = []
sorted_m (m ∷ ms) = add_m m (sorted_m ms)

-- `[1, 2, 4] + [i for i in range(8, 65, 8)]`
abbrev pub small_cases : List ℕ
small_cases = 1 ∷ 2 ∷ 4 ∷ map (λ i. 8 * i) (counting 1 8)

-- `block_ms`
abbrev pub block_ms : List ℕ
block_ms = 64 ∷ 128 ∷ 256 ∷ []

-- `range(16, min(257, n + 1), 16)`
abbrev pub block_ns : ℕ → List ℕ
block_ns n = map (λ i. 16 * i) (counting 1 (min 256 n / 16))

-- `cdiv` is vllm's, of which nothing is assumed.
module _ (cdiv : ℕ → ℕ → ℕ) (num_sms max_tokens n : ℕ) where
  -- The token counts where a block configuration goes to its next wave.
  abbrev pub waves : ℕ → ℕ → List ℕ
  waves block_m block_n =
      select (λ m. leb 1 m && leb m max_tokens)
        (map (λ wave. wave * num_sms * block_m / cdiv n block_n) (counting 1 10))

  -- The multiples of a block.
  abbrev pub multiples : ℕ → List ℕ
  multiples block_m =
      select (λ m. leb m max_tokens)
        (map (λ multiple. multiple * block_m) (counting 1 (max_tokens / block_m)))

  abbrev pub for_blocks : ℕ → List ℕ → List ℕ
  for_blocks block_m [] = []
  for_blocks block_m (block_n ∷ ns) =
      (if ltb n block_n then [] else waves block_m block_n ++ multiples block_m)
      ++ for_blocks block_m ns

  abbrev pub for_all_blocks : List ℕ → List ℕ
  for_all_blocks [] = []
  for_all_blocks (block_m ∷ ms) = for_blocks block_m (block_ns n) ++ for_all_blocks ms

  -- `_generate_optimal_warmup_m_values`
  unfoldable pub generate_optimal_warmup_m_values : List ℕ
  unfolding sorted_m
  generate_optimal_warmup_m_values = sorted_m (small_cases ++ for_all_blocks block_ms)

-- `_get_gemm_nt_m_values`, for a value of `VLLM_DEEP_GEMM_WARMUP`. Any but two fail the assertion.
unfoldable pub get_gemm_nt_m_values : (ℕ → ℕ → ℕ) → ℕ → String → ℕ → ℕ → Option (List ℕ)
unfolding generate_optimal_warmup_m_values string_eq
get_gemm_nt_m_values cdiv num_sms warmup n max_tokens =
    if warmup == "relax"
    then some (generate_optimal_warmup_m_values cdiv num_sms max_tokens n)
    else require (warmup == "full") >> some (counting 1 max_tokens)
