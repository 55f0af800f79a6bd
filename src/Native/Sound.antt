-- ===== src/Native/Sound.antt =====
-- Properties of a manifest that vllm_sail/native/manifest.py has loaded.
use mathlib.Core.Option.{some-injective}
use vllm_sail.Base.{String, Bool, true, false, not, ◌&&◌, Option, none, some, ◌≡◌, refl, inl, inr}
use vllm_sail.Base.{
  List, [], ◌∷◌, ◌++◌, map, arith, ◌==◌, ==_refl, string_eq, nat_eq, option_eq, contains, all,
  Bool-cases,
}
use vllm_sail.Base.Sorting.{IsDistinct}
use vllm_sail.Base.Failing.{then_require, then_some, require-true}
use vllm_sail.Native.Manifest.{
  Entry, Manifest, Raw, keys, all_ops, is_empty, claim, check_unique, check_compiled,
  is_replacement, entry, entries, load,
}

abbrev pub paths : List Entry → List String
paths es = map (λ e. e.path) es

-- What is claimed was not seen before, and is claimed once.
claim-IsDistinct :
    (seen xs owned : List String)
    → claim seen xs ≡ some owned
    → IsDistinct xs × ((x : String) → contains seen x ≡ true → contains xs x ≡ false)
unfolding claim
claim-IsDistinct seen [] owned h = (tt, λ x k. refl)
claim-IsDistinct seen (y ∷ ys) owned h =
    let (fresh, k) = then_require (not (contains seen y)) _ h in
    let (distinct, apart) = claim-IsDistinct (y ∷ seen) ys owned k in
    (
      (apart y (rw (==_refl y)), distinct),
      λ x seen_x. elim (Bool-cases (x == y)) [
        | inl same ↦ let e : x ≡ y = ground arith in absurd (ground arith)
        | inr other ↦ let rest = apart x (rw other seen_x) in rw other rest
      ],
    )

claim-append :
    (seen xs ys owned more : List String)
    → claim seen xs ≡ some owned
    → claim owned ys ≡ some more
    → claim seen (xs ++ ys) ≡ some more
unfolding claim
claim-append seen [] ys owned more h k = rw (some-injective seen owned h) k
claim-append seen (x ∷ xs) ys owned more h k =
    let (fresh, rest) = then_require (not (contains seen x)) _ h in
    rw fresh (claim-append (x ∷ seen) xs ys owned more rest k)

check_unique-claim :
    (seen owner : List String) (es : List Entry)
    → check_unique seen owner es ≡ some tt
    → ((s : List String) × (claim seen (paths es) ≡ some s))
      × ((o : List String) × (claim owner (all_ops es) ≡ some o))
unfolding check_unique claim
check_unique-claim seen owner [] h = ((seen, refl), (owner, refl))
check_unique-claim seen owner (e ∷ es) h =
    let (fresh, k) = then_require (not (contains seen e.path)) _ h in
    let (owned, claimed, rest) = then_some (claim owner e.ops) _ k in
    let ((s, hs), (o, ho)) = check_unique-claim (e.path ∷ seen) owned es rest in
    ((s, rw fresh hs), (o, claim-append owner e.ops (all_ops es) owned o claimed ho))

-- An entry's tier and hazards are declared, and it has a path.
abbrev pub is_declared : List String → List String → Entry → Bool
unfolding string_eq
is_declared tiers hazards e =
    not (e.path == "") && (contains tiers e.tier && all (contains hazards) e.hazards)

-- A manifest without contradictions.
pub record IsSound (m : Manifest) : Type 0 where
  pub upstream_ref : (m.upstream_ref == "") ≡ false
  pub compiled_tiers : all (contains (keys m.tiers)) m.compiled_tiers ≡ true
  pub declared : all (is_declared (keys m.tiers) (keys m.hazards)) m.entries ≡ true
  pub paths_once : IsDistinct (paths m.entries)
  pub ops_once : IsDistinct (all_ops m.entries)
  pub no_cutlass :
      all (λ e. not (contains m.compiled_tiers e.tier && contains e.hazards "cutlass")) m.entries
      ≡ true
  pub replacements : all (λ r. is_replacement (r.1)) m.replace_text ≡ true
  pub pruned : all (contains (paths m.entries)) m.prune_bindings ≡ true

module _ (strip : String → String) where
  entries-declared :
      (raw : Raw) (items es : List Entry)
      → entries strip raw.tiers raw.hazards items ≡ some es
      → all (is_declared (keys raw.tiers) (keys raw.hazards)) es ≡ true
  unfolding entries entry is_declared
  entries-declared raw [] es h = rw (← some-injective [] es h) refl
  entries-declared raw (item ∷ items) es h =
      let (e, made, k) = then_some (entry strip raw.tiers raw.hazards item) _ h in
      let (rest, made_rest, j) = then_some (entries strip raw.tiers raw.hazards items) _ k in
      let (named, h1) = then_require (not (strip item.path == "")) _ made in
      let (tier, h2) = then_require (contains (keys raw.tiers) item.tier) _ h1 in
      let (hazards, h3) = then_require (all (contains (keys raw.hazards)) item.hazards) _ h2 in
      rw (← some-injective (e ∷ rest) es j) (
        rw (← some-injective (record item { path = strip item.path }) e h3)
          (rw (named, tier, hazards, entries-declared raw items rest made_rest)))

  -- A manifest that `load` returns is sound: it has a ref; its compiled tiers, and every entry's tier and
  -- hazards, are declared; no two entries have a path, or an operation, in common; no entry of a
  -- compiled tier has the hazard "cutlass"; the replacements are well-formed, and the bindings that
  -- are pruned are entries.
  pub load-IsSound : (file : Option Raw) (m : Manifest) → load strip file ≡ some m → IsSound m
  unfolding load check_compiled
  load-IsSound none m h = cc
  load-IsSound (some raw) m h =
      let (_, h1) = then_require (raw.schema == some 1) _ h in
      let (has_ref, h2) = then_require (not (strip raw.upstream_ref == "")) _ h1 in
      let (_, h3) = then_require (not (is_empty raw.tiers)) _ h2 in
      let (_, h4) = then_require (not (is_empty raw.compiled_tiers)) _ h3 in
      let (tiers, h5) = then_require (all (contains (keys raw.tiers)) raw.compiled_tiers) _ h4 in
      let (es, made, h6) = then_some (entries strip raw.tiers raw.hazards raw.entry) _ h5 in
      let (_, h7) = then_require (not (is_empty es)) _ h6 in
      let (_, unique, h8) = then_some (check_unique [] [] es) _ h7 in
      let (_, clean, h9) = then_some (check_compiled raw.compiled_tiers es) _ h8 in
      let (replaced, h10) = then_require (all (λ r. is_replacement (r.1)) raw.replace_text) _ h9 in
      let (known, h11) = then_require (all (contains (paths es)) raw.prune_bindings) _ h10 in
      let ((s, hs), (o, ho)) = check_unique-claim [] [] es unique in
      rw (← some-injective _ m h11) (record {
        upstream_ref = ground arith;
        compiled_tiers = tiers;
        declared = entries-declared raw raw.entry es made;
        paths_once = (claim-IsDistinct [] (paths es) s hs).0;
        ops_once = (claim-IsDistinct [] (all_ops es) o ho).0;
        no_cutlass = require-true _ clean;
        replacements = replaced;
        pruned = known;
      })
