-- ===== src/Warmup/Layout.antt =====
-- How vllm_sail/model_executor/warmup/deep_gemm_warmup.py divides the token counts among the ranks of
-- a node.
use Prim.Native.Nat.{min}
use vllm_sail.Base.{ℕ, ◌+◌, ◌*◌, ◌/◌, ◌%◌, Bool, true, false, ◌&&◌, ◌||◌, Option, none, some}
use vllm_sail.Base.{List, [], ◌∷◌, length, take, drop, ◌==◌, nat_eq, ltb, leb, if◌then◌else◌}

-- What `get_world_group()` and `get_node_count()` tell.
pub record Ranks : Type 0 where
  pub local_rank : ℕ
  pub world_size : ℕ
  pub node_count : ℕ

-- `_get_local_rank_and_size`, of `_LOCAL_RANK_INFO` and of what the calls tell, where they do not
-- raise. The value is what is returned and what `_LOCAL_RANK_INFO` is afterwards; `none` is `None`.
unfoldable pub get_local_rank_and_size : Option (ℕ × ℕ) → Option Ranks → Option (ℕ × ℕ)
unfolding nat_eq
get_local_rank_and_size (some info) world = some info
get_local_rank_and_size none none = some (0, 1)
get_local_rank_and_size none (some w) =
    if ltb 0 w.node_count && w.world_size % w.node_count == 0
    then some (w.local_rank, w.world_size / w.node_count)
    else none

abbrev is_empty : List ℕ → Bool
is_empty [] = true
is_empty (m ∷ ms) = false

-- `_shard_m_values_chunked`, for a rank and the number of ranks.
unfoldable pub shard_m_values : ℕ → ℕ → List ℕ → List ℕ
shard_m_values rank world_size ms =
    let chunk = length ms / world_size in
    let start = rank * chunk in
    let end' = min (length ms) (start + chunk) in
    if leb world_size 1 || is_empty ms then ms else drop start (take end' ms)

-- `_shard_m_values_chunked`, with the new `_LOCAL_RANK_INFO`. To unpack `None` raises.
unfoldable pub shard_m_values_chunked :
    Option (ℕ × ℕ) → Option Ranks → List ℕ → Option (List ℕ × Option (ℕ × ℕ))
unfolding get_local_rank_and_size shard_m_values
shard_m_values_chunked info world ms = sharded (get_local_rank_and_size info world)
  where
    sharded : Option (ℕ × ℕ) → Option (List ℕ × Option (ℕ × ℕ))
    sharded none = none
    sharded (some (rank, world_size)) =
        some (shard_m_values rank world_size ms, some (rank, world_size))
