-- ===== src/Moe/Placed.antt =====
-- A consumer of vllm_sail/registry/moe_backends/__init__.py that is rebound: what it reads, and what
-- all other modules go on reading.
use vllm_sail.Base.{String, ◌≡◌, refl, sym, ap, ◌∙◌, ◌≢◌, ◌⊎◌, inl, inr, Bool, true, false}
use vllm_sail.Base.{not, Option, some, List, [], ◌∷◌, ◌==◌, contains, nat_eq, string_eq, option_eq}
use vllm_sail.Base.{arith, Bool-cases, Option-cases, ◌&&◌, ==_true}
use mathlib.Core.Path.{subst}
use mathlib.Core.Option.{some-injective, none-ne-some}
use vllm_sail.Base.Names.{lookup, Names}
use vllm_sail.Patch.Path.{has_dot, is_nonempty}
use vllm_sail.Patch.Heap.{Ref, Cell, marker, Python, World, get_attribute, lookup_bases}
use vllm_sail.Patch.Monad.{attribute_error, runtime_error, ok, ◌>>=◌, return, require}
use vllm_sail.Patch.Attributes.{patch_marker}
use vllm_sail.Patch.Commit.{>>=-eq-ok, ok-injective, ok-ne-raised}
use vllm_sail.Patch.Run.{patch}
use vllm_sail.Patch.Steps.{then_found}
use vllm_sail.Patch.Installed.{get_attribute-Committed, lookup-Committed_other}
use vllm_sail.Patch.Module.{patch-ModulePatched}
use vllm_sail.Base.{◌++◌}
use vllm_sail.Moe.Rebind.{Table, Aliases, oracle_name, oracle_alias_consumers}
use vllm_sail.Moe.Rebind.{metadata, check_entry, check_captured, rebind_captured, rebind_consumer}

alias_consumers : Aliases → List String
alias_consumers [] = []
alias_consumers ((a, names) ∷ aliases) = names ++ alias_consumers aliases

table_modules : Table → List String
unfolding alias_consumers
table_modules [] = []
table_modules ((b, aliases) ∷ table) =
    oracle_name b ∷ (alias_consumers aliases ++ table_modules table)

-- The name is that of an oracle or a consumer of the table.
unfoldable pub is_named : String → Bool
unfolding table_modules oracle_alias_consumers string_eq
is_named = contains (table_modules oracle_alias_consumers)

-- Modules as Python has them: `import_module` gives a module that is loaded; of the modules that the
-- table names, two names are two modules, and none is a base of an object's class.
pub record IsModular (py : Python) (loaded : String → Option Ref) : Type 0 where
  pub imported : (n : String) (c : Ref) → loaded n ≡ some c → py.imports n ≡ some c
  pub distinct :
      (n m : String) (c : Ref)
      → is_named n ≡ true
      → is_named m ≡ true
      → py.imports n ≡ some c
      → py.imports m ≡ some c
      → n ≡ m
  pub no_base :
      (r : Ref) (n : String) (c : Ref)
      → is_named n ≡ true
      → py.imports n ≡ some c
      → contains (py.bases r) c ≡ false

-- A name that `patch` takes for an attribute of a module, and that is not the marker's.
unfoldable pub is_plain : String → Bool
unfolding has_dot is_nonempty string_eq
is_plain a = not (has_dot a) && is_nonempty a && not (a == patch_marker)

-- What stays readable: the attributes of all objects but the one that is rebound.
abbrev pub Keeps : World → World → Ref → String → Type 0
Keeps w v c a =
    (q : Ref) (k : String)
    → k ≢ patch_marker
    → (q ≢ c) ⊎ (k ≢ a)
    → get_attribute v q k ≡ get_attribute w q k

lookup_bases_same :
    (f g : Ref → Names Ref) (bs : List Ref) (k : String) (c : Ref)
    → contains bs c ≡ false
    → ((q : Ref) → q ≢ c → lookup k (f q) ≡ lookup k (g q))
    → lookup_bases f bs k ≡ lookup_bases g bs k
unfolding lookup_bases
lookup_bases_same f g [] k c away same = refl
lookup_bases_same f g (b ∷ bs) k c away same =
    let here = same b (ground arith) in
    let rest = lookup_bases_same f g bs k c (ground arith) same in ground arith

require_quiet : (b : Bool) (w u : World) → require b runtime_error w ≡ (ok tt, u) → u ≡ w
require_quiet true w u h = sym (ok-injective tt tt h).1
require_quiet false w u h = cc

check_entry_quiet :
    (c : Cell) (target : String) (x : Ref) (w u : World)
    → check_entry c target x w ≡ (ok tt, u)
    → u ≡ w
unfolding check_entry
check_entry_quiet (marker es) target x w u h =
    require_quiet (lookup target es == some (some x)) w u h
check_entry_quiet _ target x w u h = cc

check_captured_quiet :
    (r x : Ref) (target : String) (w u : World) → check_captured r target x w ≡ (ok tt, u) → u ≡ w
unfolding check_captured
check_captured_quiet r x target w u h = elim (Option-cases (get_attribute w r patch_marker)) [
  | inl absent ↦ absurd (ok-ne-raised (sym (rw (absent, check_captured) at h)))
  | inr (d, at) ↦ check_entry_quiet (w.cell d) target x w u (rw (at, check_captured) at h)
]

module _ (py : Python) (loaded : String → Option Ref) (m : IsModular py loaded) where
  get_attribute_same :
      (w v : World) (c : Ref) (a n : String)
      → w.python ≡ py
      → v.python ≡ py
      → is_named n ≡ true
      → py.imports n ≡ some c
      → ((q : Ref) (k : String)
          → k ≢ patch_marker
          → (q ≢ c) ⊎ (k ≢ a)
          → lookup k (v.own q) ≡ lookup k (w.own q))
      → Keeps w v c a
  unfolding get_attribute
  get_attribute_same w v c a n pw pv named at same q k plain' away =
      let same_bases : v.python.bases q ≡ w.python.bases q =
        ap (λ (p : Python). p.bases q) (pv ∙ sym pw) in
      let none_there : contains (w.python.bases q) c ≡ false =
        ap (λ (p : Python). contains (p.bases q) c) pw ∙ m.no_base q n c named at in
      let here = same q k plain' away in
      let rest : lookup_bases v.own (v.python.bases q) k ≡ lookup_bases w.own (w.python.bases q) k =
        ap (λ (bs : List Ref). lookup_bases v.own bs k) same_bases
        ∙ lookup_bases_same v.own w.own (w.python.bases q) k c none_there
            (λ r off. same r k plain' (inl off)) in
      ground arith

  -- What a consumer that is rebound, or was bound, leaves behind.
  pub record Placed (a n : String) (r : Ref) (w v : World) : Type 0 where
    pub python_is : v.python ≡ py
    pub reads : (c : Ref) → loaded n ≡ some c → get_attribute v c a ≡ some r
    pub keeps :
        (q : Ref) (k : String)
        → k ≢ patch_marker
        → ((c : Ref) → loaded n ≡ some c → (q ≢ c) ⊎ (k ≢ a))
        → get_attribute v q k ≡ get_attribute w q k

  patch-Placed :
      (a n : String) (r c x : Ref) (w v : World)
      → w.python ≡ py
      → is_plain a ≡ true
      → is_named n ≡ true
      → loaded n ≡ some c
      → patch n (some a) false metadata r w ≡ (ok x, v)
      → Placed a n r w v
  unfolding is_plain
  patch-Placed a n r c x w v pw plain' named at h =
      let p = patch-ModulePatched n a false metadata r w v x (ground arith) (ground arith) h in
      let pv : v.python ≡ py = p.committed.python_is ∙ pw in
      let target_is : py.imports n ≡ some p.target =
        sym (ap (λ (q : Python). q.imports n) pw) ∙ p.target_is in
      let is_target : (c : Ref) → loaded n ≡ some c → c ≡ p.target =
        λ c at. some-injective c p.target (sym (m.imported n c at) ∙ target_is) in
      record {
        python_is = pv;
        reads = λ c at. rw (is_target c at) (get_attribute-Committed _ _ _ _ _ _ _ w v p.committed);
        keeps = λ q k plain'' away.
            get_attribute_same w v c a n pw pv named (m.imported n c at)
              (λ q k marked off.
                lookup-Committed_other _ _ _ _ _ _ _ w v p.committed q k marked
                  (rw (← is_target c at) off))
              q k plain'' (away c at);
      }

  untouched :
      (a n : String) (r : Ref) (w : World)
      → w.python ≡ py
      → ((c : Ref) → loaded n ≡ some c → get_attribute w c a ≡ some r)
      → Placed a n r w w
  untouched a n r w pw reads = record {
    python_is = pw;
    reads = reads;
    keeps = λ q k plain' away. refl;
  }

  then_patch-Placed :
      (a n : String) (r c : Ref) (w u v : World)
      → w.python ≡ py
      → is_plain a ≡ true
      → is_named n ≡ true
      → loaded n ≡ some c
      → u ≡ w
      → (patch n (some a) false metadata r >>= λ _. return tt) u ≡ (ok tt, v)
      → Placed a n r w v
  then_patch-Placed a n r c w u v pw plain' named at quiet h =
      let (y, t, patched, end) =
        >>=-eq-ok (patch n (some a) false metadata r) (λ _. return tt) w (rw quiet at h) in
      let (_, q) = ok-injective tt tt end in
      subst (Placed a n r w) q (patch-Placed a n r c y w t pw plain' named at patched)

  rebind_captured-Placed :
      (a n target : String) (r c x : Ref) (w v : World)
      → w.python ≡ py
      → is_plain a ≡ true
      → is_named n ≡ true
      → loaded n ≡ some c
      → get_attribute w c a ≡ some x
      → rebind_captured n a target r x w ≡ (ok tt, v)
      → Placed a n r w v
  unfolding rebind_captured
  rebind_captured-Placed a n target r c x w v pw plain' named at captured h =
      elim (Bool-cases (x == r)) [
        | inl same ↦
            let e : x ≡ r = ==_true x r same in
            let (_, q) = ok-injective tt tt (rw same at h) in
            rw (← q) (
              untouched a n r w pw (λ c' at'.
                let e' : c' ≡ c = some-injective c' c (sym at' ∙ at) in rw e' (captured ∙ rw e)))
        | inr other ↦
            let (_, u, checked, rest) =
              >>=-eq-ok (check_captured r target x)
                (λ _. patch n (some a) false metadata r >>= λ _. return tt) w (rw other at h) in
            then_patch-Placed a n r c w u v pw plain' named at
              (check_captured_quiet r x target w u checked) rest
      ]

  pub rebind_consumer-Placed :
      (a n target : String) (r : Ref) (w v : World)
      → w.python ≡ py
      → is_plain a ≡ true
      → is_named n ≡ true
      → rebind_consumer loaded a target r n w ≡ (ok tt, v)
      → Placed a n r w v
  unfolding rebind_consumer
  rebind_consumer-Placed a n target r w v pw plain' named h = elim (Option-cases (loaded n)) [
    | inl absent ↦
        let (_, q) = ok-injective tt tt (rw (absent, rebind_consumer) at h) in
        rw (← q) (untouched a n r w pw (λ c at. absurd (none-ne-some c (sym absent ∙ at))))
    | inr (c, at) ↦
        let (x, captured, rest) =
          then_found w (get_attribute w c a) attribute_error (rebind_captured n a target r)
            (rw (at, rebind_consumer) at h) in
        rebind_captured-Placed a n target r c x w v pw plain' named at captured rest
  ]
