-- ===== src/Warmup/Single.antt =====
-- Lemmas on the warm-up of one weight in a process that is alone on its node.
use vllm_sail.Base.{ℕ, suc, ◌+◌, ◌≤◌, ◌≡◌, refl, ap, ◌∙◌, true, false, Option, some}
use vllm_sail.Base.{
  List, [], ◌∷◌, ◌++◌, map, length, length-append, arith, ◌==◌, ==_refl, nat_eq, list_eq, leb,
}
use vllm_sail.Base.{Bool, all}
use vllm_sail.Warmup.Layout.{get_local_rank_and_size, shard_m_values, shard_m_values_chunked}
use vllm_sail.Warmup.Dense.{Process, Warm, Kernel, kernel_eq, remember, warm_values}

-- The process has at most one rank on its node, and its kernel calls return.
unfoldable pub RunsAlone : Process → Warm → Type 0
unfolding get_local_rank_and_size
RunsAlone p w =
    (rank : ℕ) × (world_size : ℕ) × (get_local_rank_and_size w.local_rank_info p.ranks
      ≡ some (rank, world_size))
    × (world_size ≤ 1)
    × ((kernel : Kernel) (s : List ℕ) (m : ℕ) → p.accepts kernel s m ≡ true)

-- What a warm-up with a kernel has done: `count` calls, and the sizes that the kernel remembers.
pub record After (p : Process) (kernel : Kernel) (w v : Warm) (count : ℕ) (seen : List (List ℕ))
    : Type 0 where
  pub single : RunsAlone p v
  pub called : length v.calls ≡ length w.calls + count
  pub remembered : v.cache kernel ≡ seen
  pub others : (j : Kernel) → (j == kernel) ≡ false → v.cache j ≡ w.cache j

shard-alone :
    (rank world_size : ℕ) (ms : List ℕ) → world_size ≤ 1 → shard_m_values rank world_size ms ≡ ms
unfolding shard_m_values
shard-alone rank world_size ms h = let alone : leb world_size 1 ≡ true = ground arith in rw alone

pub length-map_lem {ℓ κ} :
    {A : Type ℓ} {B : Type κ} (f : A → B) (xs : List A) → length (map f xs) ≡ length xs
length-map_lem f [] = refl
length-map_lem f (x ∷ xs) = ap suc (length-map_lem f xs)

all_accepted : {f : ℕ → Bool} (ms : List ℕ) → ((m : ℕ) → f m ≡ true) → all f ms ≡ true
all_accepted [] fine = refl
all_accepted (m ∷ ms) fine = rw (fine m) (all_accepted ms fine)

-- Alone, the warm-up of a weight's token counts succeeds.
pub warm_values-After :
    (p : Process) (kernel : Kernel) (s ms : List ℕ) (w : Warm)
    → RunsAlone p w
    → (v : Warm) × (warm_values p kernel s ms w ≡ some v)
      × After p kernel w v (length ms) (s ∷ w.cache kernel)
unfolding warm_values shard_m_values_chunked remember get_local_rank_and_size RunsAlone
warm_values-After p kernel s ms w (rank, world_size, alone, few, fine) = (
  remember kernel s (record w {
    calls = w.calls ++ map (λ m. record { kernel = kernel; size = s; num_tokens = m }) ms;
    local_rank_info = some (rank, world_size);
  }),
  rw alone (rw (shard-alone rank world_size ms few) (rw (all_accepted ms (fine kernel s)) refl)),
  record {
    single = (rank, world_size, refl, few, fine);
    called = rw (length-append, length-map_lem) refl;
    remembered = rw (==_refl kernel);
    others = λ j other. rw other;
  },
)

-- A warm-up that succeeds, and what it has done.
abbrev pub Done : Process → Kernel → Option Warm → Warm → ℕ → List (List ℕ) → Type 0
Done p kernel o w count seen = (v : Warm) × (o ≡ some v) × After p kernel w v count seen

pub After-none :
    (p : Process) (kernel : Kernel) (w : Warm)
    → RunsAlone p w
    → After p kernel w w 0 (w.cache kernel)
After-none p kernel w single = record {
  single = single;
  called = omega arith;
  remembered = refl;
  others = λ j other. refl;
}

pub After-After :
    (p : Process) (kernel : Kernel) (w v u : Warm) (m n : ℕ) (seen more : List (List ℕ))
    → After p kernel w v m seen
    → After p kernel v u n more
    → After p kernel w u (m + n) more
After-After p kernel w v u m n seen more a b = record {
  single = b.single;
  called = omega (arith, a.called, b.called);
  remembered = b.remembered;
  others = λ j other. b.others j other ∙ a.others j other;
}
