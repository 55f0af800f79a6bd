-- ===== src/Moe/Tried.antt =====
-- How `select_mxfp4_moe_backend` ends where a backend is asked for by name.
use vllm_sail.Base.{◌≡◌, refl, sym, ap, Bool, true, false, Option, List, [], ◌∷◌, ◌++◌, map, ◌==◌}
use mathlib.Core.Path.{subst}
use vllm_sail.Base.{contains, ==_true, ◌<>◌}
use vllm_sail.Base.{string_eq, if◌then◌else◌, inl, inr, Bool-cases}
use vllm_sail.Base.Raising.{
  value_error, attribute_error, not_implemented_error, assertion_error, other_error, Result, ok,
  raised,
}
use vllm_sail.Moe.Backend.{Backend, QuantKey, MoeConfig, Device, Selected}
use vllm_sail.Moe.Mxfp4.{
  Oracle, try_each, attempt, candidates, batched_backend, select_mxfp4_moe_backend, w4a4, bf16, mma,
}

abbrev pub AllRefused : (Backend → Result Selected) → List Backend → Type 0
AllRefused f [] = Unit
AllRefused f (b ∷ bs) = (f b ≡ raised value_error) × AllRefused f bs

-- The candidate at which the search ends, behind candidates that were refused.
abbrev pub EndsAt : (Backend → Result Selected) → List Backend → Result Selected → Type 0
EndsAt f bs r =
    (before : List Backend) × (b : Backend) × (after : List Backend) × (bs ≡ before ++ (b ∷ after))
    × AllRefused f before
    × (f b ≡ r)

-- What an outcome of a search tells of the candidates.
abbrev pub Explains : (Backend → Result Selected) → List Backend → Result Selected → Type 0
Explains f bs (ok s) = EndsAt f bs (ok s)
Explains f bs (raised value_error) = AllRefused f bs
Explains f bs (raised attribute_error) = EndsAt f bs (raised attribute_error)
Explains f bs (raised not_implemented_error) = EndsAt f bs (raised not_implemented_error)
Explains f bs (raised assertion_error) = EndsAt f bs (raised assertion_error)
Explains f bs (raised other_error) = EndsAt f bs (raised other_error)

module _ (f : Backend → Result Selected) where
  passed :
      (b : Backend) (bs : List Backend) (r : Result Selected)
      → f b ≡ raised value_error
      → EndsAt f bs r
      → EndsAt f (b ∷ bs) r
  passed b bs r refused (before, x, after, split, all, ends) =
      (b ∷ before, x, after, ap (λ (l : List Backend). b ∷ l) split, (refused, all), ends)

  later :
      (b : Backend) (bs : List Backend) (r : Result Selected)
      → f b ≡ raised value_error
      → Explains f bs r
      → Explains f (b ∷ bs) r
  later b bs (ok s) refused e = passed b bs (ok s) refused e
  later b bs (raised value_error) refused e = (refused, e)
  later b bs (raised attribute_error) refused e = passed b bs _ refused e
  later b bs (raised not_implemented_error) refused e = passed b bs _ refused e
  later b bs (raised assertion_error) refused e = passed b bs _ refused e
  later b bs (raised other_error) refused e = passed b bs _ refused e

  at_once : (b : Backend) (bs : List Backend) {r : Result Selected} → f b ≡ r → EndsAt f (b ∷ bs) r
  at_once b bs e = ([], b, bs, refl, tt, e)

  so :
      (b : Backend) (bs : List Backend) (r : Result Selected)
      → try_each f (b ∷ bs) ≡ r
      → Explains f (b ∷ bs) r
      → Explains f (b ∷ bs) (try_each f (b ∷ bs))
  so b bs r same = subst (Explains f (b ∷ bs)) (sym same)

  by_result :
      (b : Backend) (bs : List Backend) (r : Result Selected)
      → Explains f bs (try_each f bs)
      → f b ≡ r
      → Explains f (b ∷ bs) (try_each f (b ∷ bs))
  unfolding try_each
  by_result b bs (ok s) rest e = so b bs (ok s) (rw (e, try_each)) (at_once b bs e)
  by_result b bs (raised value_error) rest e =
      so b bs (try_each f bs) (rw (e, try_each)) (later b bs (try_each f bs) e rest)
  by_result b bs (raised attribute_error) rest e =
      so b bs (raised attribute_error) (rw (e, try_each)) (at_once b bs e)
  by_result b bs (raised not_implemented_error) rest e =
      so b bs (raised not_implemented_error) (rw (e, try_each)) (at_once b bs e)
  by_result b bs (raised assertion_error) rest e =
      so b bs (raised assertion_error) (rw (e, try_each)) (at_once b bs e)
  by_result b bs (raised other_error) rest e =
      so b bs (raised other_error) (rw (e, try_each)) (at_once b bs e)

  try_each-Explains : (bs : List Backend) → Explains f bs (try_each f bs)
  unfolding try_each
  try_each-Explains [] = tt
  try_each-Explains (b ∷ bs) = by_result b bs (f b) (try_each-Explains bs) refl

-- The standard members that have a batched one, which is named so.
abbrev pub batched_name : Backend → Backend
unfolding string_eq
batched_name b =
    if contains
      ("MARLIN" ∷ "PPU_DEEPGEMM_MXFP4" ∷ "PPU_DEEPGEMM_MXFP4_BF16" ∷ "PPU_DEEPGEMM_MXFP4_BF16_MMA"
        ∷ [])
      b
    then "BATCHED_" <> b
    else b

batched_backend-batched_name : (b : Backend) → batched_backend b ≡ batched_name b
unfolding batched_backend string_eq
batched_backend-batched_name b = elim (Bool-cases (b == "MARLIN")) [
  | inl e ↦ at "MARLIN" e refl
  | inr other ↦ elim (Bool-cases (b == w4a4)) [
    | inl e ↦ at w4a4 e refl
    | inr other' ↦ elim (Bool-cases (b == bf16)) [
      | inl e ↦ at bf16 e refl
      | inr rest ↦ elim (Bool-cases (b == mma)) [
        | inl e ↦ at mma e refl
        | inr last ↦ rw (other, other', rest, last) refl
      ]
    ]
  ]
]
  where
    at :
        (m : Backend)
        → (b == m) ≡ true
        → batched_backend m ≡ batched_name m
        → batched_backend b ≡ batched_name b
    at m e same = subst (λ x. batched_backend x ≡ batched_name x) (sym (==_true b m e)) same

map-batched_name : (bs : List Backend) → map batched_backend bs ≡ map batched_name bs
map-batched_name [] = refl
map-batched_name (b ∷ bs) =
    let e = batched_backend-batched_name b in let rest = map-batched_name bs in cc

module _ (d : Device) (o : Oracle) (c : MoeConfig) where
  settled :
      (b : Bool) (bs : List Backend)
      → (if b then map batched_backend bs else bs) ≡ (if b then map batched_name bs else bs)
  settled true bs = map-batched_name bs
  settled false bs = refl

  -- Where a backend is asked for by name and vLLM's oracle turns the name into candidates, the
  -- selection ends as the first candidate does that is not refused by a ValueError, with its result
  -- or its exception, and with a ValueError where all are refused or there are none. In the batched
  -- format the candidates that are tried are those of vLLM's oracle, where MARLIN and the plugin's
  -- three standard members are replaced by the members whose names begin with "BATCHED_"; in the
  -- standard format they are those of vLLM's oracle.
  pub select_mxfp4_moe_backend-Explains :
      (key : Option QuantKey) (bs : List Backend)
      → (c.moe_backend == "auto") ≡ false
      → o.requested c.moe_backend (o.resolved key) ≡ ok bs
      → Explains
          (attempt d o c (o.resolved key))
          (candidates d o c bs)
          (select_mxfp4_moe_backend d o c key)
        × (candidates d o c bs ≡ (if c.is_batched then map batched_name bs else bs))
  unfolding select_mxfp4_moe_backend
  select_mxfp4_moe_backend-Explains key bs named asked = (
    rw (named, asked) (try_each-Explains (attempt d o c (o.resolved key)) (candidates d o c bs)),
    settled c.is_batched bs,
  )
