-- ===== src/Warmup/Groups.antt =====
-- Lemmas on the warm-ups for one kind of kernel over all modules.
use mathlib.Core.Path.{subst}
use mathlib.Core.Option.{some-injective}
use vllm_sail.Base.{
  ℕ, ◌+◌, ◌≡◌, refl, sym, ap, ◌∙◌, true, false, Bool, Option, some, none, Bool-cases, inl, inr,
}
use vllm_sail.Base.{List, [], ◌∷◌, ◌++◌, arith, all, length, ◌==◌, ==_true, nat_eq, if◌then◌else◌}
use vllm_sail.Base.Failing.{◌>>=◌}
use vllm_sail.Warmup.Layers.{Layer, moe, Moe, Experts, QuantConfig, Settings, MoeWeights}
use vllm_sail.Warmup.Eligible.{experts_layer}
use vllm_sail.Warmup.Dense.{Process, Warm, Kernel, kernel_eq, dense_warmup}
use vllm_sail.Warmup.Grouped.{experts_warmup}
use vllm_sail.Warmup.Count.{count_dense, count_layers, no_dense}
use vllm_sail.Warmup.Model.{collect, each, if_any}
use vllm_sail.Warmup.Single.{RunsAlone, After}
use vllm_sail.Warmup.Announced.{dense_warmup-After, experts_warmup-After}
use vllm_sail.Warmup.Loops.{count_each, each-After, count_experts, weights_fit, count_layers-Split}
use vllm_sail.Warmup.Fits.{is_three_dimensional, collect-weights_fit, linear-apart, Limits}

unfoldable pub outside : List Kernel → Kernel → Bool
unfolding kernel_eq
outside [] j = true
outside (k ∷ ks) j = if j == k then false else outside ks j

outside-append :
    (ks ls : List Kernel) (j : Kernel)
    → outside (ks ++ ls) j ≡ true
    → (outside ks j ≡ true) × (outside ls j ≡ true)
unfolding outside
outside-append [] ls j h = (refl, h)
outside-append (k ∷ ks) ls j h = elim (Bool-cases (j == k)) [
  | inl same ↦ let e : false ≡ true = rw same at h in cc
  | inr other ↦ let (a, b) = outside-append ks ls j (rw other at h) in (rw other a, b)
]

-- What warm-ups with some kernels have done.
pub record Made (p : Process) (kernels : List Kernel) (w v : Warm) (count : ℕ) : Type 0 where
  pub single : RunsAlone p v
  pub called : length v.calls ≡ length w.calls + count
  pub others : (j : Kernel) → outside kernels j ≡ true → v.cache j ≡ w.cache j

abbrev pub Makes : Process → List Kernel → (Warm → Option Warm) → Warm → ℕ → Type 0
Makes p kernels f w count = (v : Warm) × (f w ≡ some v) × Made p kernels w v count

pub Made-none :
    (p : Process) (kernels : List Kernel) (w : Warm) → RunsAlone p w → Made p kernels w w 0
Made-none p kernels w single = record {
  single = single;
  called = omega arith;
  others = λ j other. refl;
}

pub Made-Made :
    (p : Process) (ks ls : List Kernel) (w v u : Warm) (m n : ℕ)
    → Made p ks w v m
    → Made p ls v u n
    → Made p (ks ++ ls) w u (m + n)
Made-Made p ks ls w v u m n a b = record {
  single = b.single;
  called = omega (arith, a.called, b.called);
  others = λ j other.
      let (out, apart) = outside-append ks ls j other in b.others j apart ∙ a.others j out;
}

After-Made :
    (p : Process) (kernel : Kernel) (w v : Warm) (n : ℕ) (seen : List (List ℕ))
    → After p kernel w v n seen
    → Made p (kernel ∷ []) w v n
unfolding outside
After-Made p kernel w v n seen a = record {
  single = a.single;
  called = a.called;
  others = λ j other. elim (Bool-cases (j == kernel)) [
    | inl same ↦ let e : false ≡ true = rw same at other in cc
    | inr apart ↦ a.others j apart
  ];
}

-- Two warm-ups, one behind the other.
pub Makes-Makes :
    (p : Process) (ks ls : List Kernel) (f g : Warm → Option Warm) (w : Warm) (m n : ℕ)
    → Makes p ks f w m
    → ((v : Warm) → Made p ks w v m → Makes p ls g v n)
    → Makes p (ks ++ ls) (λ v. f v >>= g) w (m + n)
Makes-Makes p ks ls f g w m n (v, made, a) next =
    let (u, made_too, b) = next v a in (u, rw made made_too, Made-Made p ks ls w v u m n a b)

pub if_any-Makes :
    (p : Process) (kernels : List Kernel) (f : Warm → Option Warm) (w : Warm) (n : ℕ)
    → RunsAlone p w
    → Makes p kernels f w n
    → Makes p kernels (if_any n f) w n
unfolding if_any
if_any-Makes p kernels f w n single makes = elim (Bool-cases (n == 0)) [
  | inl none_left ↦
      let e : 0 ≡ n = sym (==_true n 0 none_left) in
      (w, rw none_left, subst (Made p kernels w w) e (Made-none p kernels w single))
  | inr some_left ↦ let (v, made, a) = makes in (v, rw some_left made, a)
]

all-true : (xs : List (List ℕ)) → all (λ s. true) xs ≡ true
all-true [] = refl
all-true (x ∷ xs) = all-true xs

collect-no_dense : (ls : List Layer) → collect no_dense ls ≡ some []
unfolding collect
collect-no_dense [] = refl
collect-no_dense (l ∷ ls) = rw (collect-no_dense ls)

module _ (p : Process) (max_tokens : ℕ) (e : Settings) (test : QuantConfig → Option Bool)
    (wanted : Experts → Bool) (ke : Kernel) (limit values : MoeWeights → Option ℕ)
    (limits : (m : MoeWeights) → Limits p (limit m) (values m)) (layers : List Layer)
    (three : all is_three_dimensional layers ≡ true) where
  -- The warm-up of the experts that a count is for.
  abbrev pub warm_experts : Warm → Option Warm
  warm_experts u = collect (experts_layer e test wanted) layers >>= λ ms.
      each (λ m. experts_warmup p ke (limit m) m.w13.size m.w2.size) ms u

  experts-After :
      (ms : List MoeWeights) (w : Warm) (c : ℕ × List (List ℕ))
      → collect (experts_layer e test wanted) layers ≡ some ms
      → RunsAlone p w
      → count_each (count_experts values) ms (w.cache ke) ≡ some c
      → Makes p (ke ∷ []) warm_experts w (c.0)
  unfolding Limits
  experts-After ms w c collected single counted =
      let (v, made, a) =
        each-After p ke (weights_fit ke) (count_experts values)
          (λ m. experts_warmup p ke (limit m) m.w13.size m.w2.size)
          (λ m u d fit alone here.
            experts_warmup-After p ke (limit m) (values m) m.w13.size m.w2.size u d alone fit
              (limits m) here)
          ms w c (collect-weights_fit e test wanted ke layers ms three collected) single counted in
      (v, rw collected made, After-Made p ke w v _ _ a)

  -- A kind of kernel for experts only.
  pub experts-Makes :
      (w : Warm) (n : ℕ)
      → RunsAlone p w
      → count_layers p max_tokens no_dense
          (experts_layer e test wanted)
          values
          layers
          []
          (w.cache ke)
        ≡ some n
      → Makes p (ke ∷ []) warm_experts w n
  unfolding count_each
  experts-Makes w n single h =
      let r =
        count_layers-Split p max_tokens no_dense (experts_layer e test wanted) values
          (linear-apart e test wanted no_dense (λ x. refl)) layers [] (w.cache ke) n h in
      let empty : [] ≡ r.sizes =
        some-injective [] r.sizes (sym (collect-no_dense layers) ∙ r.collected_sizes) in
      let nothing : (0, []) ≡ r.dense_count =
        some-injective (0, []) r.dense_count (rw (← empty) at r.counted_dense) in
      let sum : r.experts_count.0 ≡ n =
        omega (arith, r.sum, ap (λ (c : ℕ × List (List ℕ)). c.0) nothing) in
      let (v, made, a) =
        experts-After r.weights w r.experts_count r.collected_weights single r.counted_experts in
      (v, made, subst (Made p (ke ∷ []) w v) sum a)

  -- A kind of kernel for dense weights, and the one for experts behind it.
  pub both-Makes :
      (dense : Layer → Option (Option (List ℕ))) (kd : Kernel)
      → ((x : Moe) → dense (moe x) ≡ some none)
      → (ke == kd) ≡ false
      → (w : Warm) (n : ℕ) → RunsAlone p w
      → count_layers p max_tokens dense
          (experts_layer e test wanted)
          values
          layers
          (w.cache kd)
          (w.cache ke)
        ≡ some n
      → Makes p
          (kd ∷ ke ∷ [])
          (λ u.
            (collect dense layers >>= λ ss. each (λ s. dense_warmup p kd s max_tokens) ss u)
            >>= warm_experts)
          w
          n
  both-Makes dense kd no_moe apart w n single h =
      let r =
        count_layers-Split p max_tokens dense (experts_layer e test wanted) values
          (linear-apart e test wanted dense no_moe) layers (w.cache kd) (w.cache ke) n h in
      let (v, made, a) =
        each-After p kd (λ s. true) (count_dense p max_tokens) (λ s. dense_warmup p kd s max_tokens)
          (λ s u d fit alone here. dense_warmup-After p kd s max_tokens u d alone here) r.sizes w
          r.dense_count (all-true r.sizes) single r.counted_dense in
      let (u, made_too, b) =
        experts-After r.weights v r.experts_count r.collected_weights a.single
          (rw (a.others ke apart) r.counted_experts) in
      (
        u,
        rw r.collected_sizes (rw made made_too),
        subst (Made p (kd ∷ ke ∷ []) w u) (sym r.sum)
            (Made-Made p (kd ∷ []) (ke ∷ []) w v u _ _ (After-Made p kd w v _ _ a) b),
      )
