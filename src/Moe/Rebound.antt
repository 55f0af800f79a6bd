-- ===== src/Moe/Rebound.antt =====
-- After the rebinding of vllm_sail/registry/moe_backends/__init__.py the consumers read what the
-- oracles do.
use mathlib.Core.Option.{some-injective}
use vllm_sail.Base.{String, ◌<>◌, ◌≡◌, refl, sym, ap, ◌∙◌, ◌≢◌, ◌⊎◌, inl, inr, Bool, true, false}
use vllm_sail.Base.{not, Option, some, List, [], ◌∷◌, ◌==◌, contains, string_eq}
use vllm_sail.Base.{arith, Bool-cases, ◌&&◌, ==_refl, both_true}
use vllm_sail.Patch.Heap.{Ref, Python, World, get_attribute}
use vllm_sail.Patch.Monad.{M, Result, attribute_error, runtime_error, raised, ok, ◌>>=◌, ◌>>◌}
use vllm_sail.Patch.Install.{import_module}
use vllm_sail.Patch.Commit.{>>=-eq-ok, ok-injective}
use vllm_sail.Patch.Steps.{then_found, then_require, then_import_module}
use vllm_sail.Moe.Rebind.{
  Table, Aliases, oracle_name, rebind_consumer, rebind_consumers, rebind_aliases,
  rebind_loaded_oracle_aliases, oracle_alias_consumers, import_all, register, table_names, note_end,
}
use vllm_sail.Moe.Items.{
  Item, name_items, alias_items, items, push, apart, apart_all, is_clear, separate, separate-append,
  push-append, Listed, Agrees, AllAgree, plain-ne-patch_marker, swapped, unnamed, Listed-Agrees,
  Listed-push,
}
use vllm_sail.Moe.Placed.{is_named, IsModular, is_plain, Placed, rebind_consumer-Placed}

module _ (py : Python) (loaded : String → Option Ref) (m : IsModular py loaded) where
  same_module :
      (n n' : String) (c c' : Ref)
      → py.imports n ≡ some c
      → py.imports n' ≡ some c'
      → c' ≡ c
      → is_named n ≡ true
      → is_named n' ≡ true
      → n' ≡ n
  same_module n n' c c' at at' e named named' = m.distinct n' n c named' named (rw (← e) at') at

  -- A place that is apart from the item that is rebound reads what it did.
  reads_on :
      (a n : String) (r : Ref) (w v : World)
      → Placed py loaded m a n r w v
      → (q : Ref) (k n' : String) → is_plain k ≡ true
      → is_named n ≡ true
      → is_named n' ≡ true
      → py.imports n' ≡ some q
      → (k == a && n' == n) ≡ false
      → get_attribute v q k ≡ get_attribute w q k
  reads_on a n r w v p q k n' plain' named named' at' off =
      p.keeps q k (plain-ne-patch_marker k plain') (λ c at. elsewhere c at (Bool-cases (k == a)))
    where
      elsewhere :
          (c : Ref) → loaded n ≡ some c → ((k == a) ≡ true) ⊎ ((k == a) ≡ false) → (q ≢ c) ⊎ (k ≢ a)
      elsewhere c at (inl same) = inl (λ e.
          let together = same_module n n' c q (m.imported n c at) at' e named named' in
          let k' : false ≡ true = ground (arith, ==_refl n) in cc)
      elsewhere c at (inr other) = inr (λ e. ground (arith, ==_refl a))

  -- What agreed goes on agreeing.
  stay :
      (b a n : String) (r : Ref) (w v : World) (done : List Item)
      → w.python ≡ py
      → Placed py loaded m a n r w v
      → is_named n ≡ true
      → apart_all (b, a, n) done ≡ true
      → AllAgree loaded w done
      → AllAgree loaded v done
  stay b a n r w v [] pw p named away agree = tt
  stay b a n r w v ((b', a', n') ∷ done) pw p named away (agree, (plain', named', oracle'), rest) =
      let (here, later) = both_true (apart (b, a, n) (b', a', n')) _ away in
      let (place, name) = both_true (not (a == a' && n == n')) _ here in
      let off : (a' == a && n' == n) ≡ false = swapped a a' n n' place in
      let off' : (a' == a && oracle_name b' == n) ≡ false = unnamed a a' n (oracle_name b') name in
      (
        (λ c o at im.
            let im' = rw p.python_is at im in
            reads_on a n r w v p c a' n' plain' named named' (m.imported n' c at) off
            ∙ agree c o at (rw pw im')
            ∙ sym (reads_on a n r w v p o a' (oracle_name b') plain' named oracle' im' off')),
        (plain', named', oracle'),
        stay b a n r w v done pw p named later rest,
      )

  consumers_agree :
      (b a target : String) (o r : Ref) (names : List String) (done : List Item) (w v : World)
      → w.python ≡ py
      → py.imports (oracle_name b) ≡ some o
      → get_attribute w o a ≡ some r
      → AllAgree loaded w done
      → separate done (name_items b a names) ≡ true
      → rebind_consumers loaded a target r names w ≡ (ok tt, v)
      → (v.python ≡ py) × AllAgree loaded v (push (name_items b a names) done)
  unfolding rebind_consumers name_items separate push
  consumers_agree b a target o r [] done w v pw im reads agree s h =
      let (_, q) = ok-injective tt tt h in rw (← q) (pw, agree)
  consumers_agree b a target o r (n ∷ names) done w v pw im reads agree s h =
      let (heads, more) = both_true (apart_all (b, a, n) done && is_clear (b, a, n)) _ s in
      let (away, clear) = both_true (apart_all (b, a, n) done) _ heads in
      let (other, fit) = both_true (not (n == oracle_name b)) _ clear in
      let (plain', both) = both_true (is_plain a) _ fit in
      let (named, oracle') = both_true (is_named n) _ both in
      let (_, u, bound, rest) =
        >>=-eq-ok (rebind_consumer loaded a target r n)
          (λ _. rebind_consumers loaded a target r names) w h in
      let p = rebind_consumer-Placed py loaded m a n target r w u pw plain' named bound in
      let still : get_attribute u o a ≡ some r =
        reads_on a n r w u p o a (oracle_name b) plain' named oracle' im
          (unnamed a a n (oracle_name b) other)
        ∙ reads in
      let new : Agrees loaded u (b, a, n) = λ c o' at im'.
        let e : o' ≡ o = some-injective o' o (sym (rw p.python_is at im') ∙ im) in
        p.reads c at ∙ sym (rw e still) in
      consumers_agree b a target o r names ((b, a, n) ∷ done) u v p.python_is im still
        (new, (plain', named, oracle'), stay b a n r w u done pw p named away agree) more rest

  aliases_agree :
      (b : String) (o : Ref) (aliases : Aliases) (done : List Item) (w v : World)
      → w.python ≡ py
      → py.imports (oracle_name b) ≡ some o
      → AllAgree loaded w done
      → separate done (alias_items b aliases) ≡ true
      → rebind_aliases loaded (oracle_name b) o aliases w ≡ (ok tt, v)
      → (v.python ≡ py) × AllAgree loaded v (push (alias_items b aliases) done)
  unfolding rebind_aliases alias_items push separate
  aliases_agree b o [] done w v pw im agree s h =
      let (_, q) = ok-injective tt tt h in rw (← q) (pw, agree)
  aliases_agree b o ((a, names) ∷ aliases) done w v pw im agree s h =
      let (here, more) =
        both_true (separate done (name_items b a names)) _
          (sym (separate-append done (name_items b a names) (alias_items b aliases)) ∙ s) in
      let (r, reads, rest) =
        then_found w (get_attribute w o a) attribute_error
          (λ r.
            rebind_consumers loaded a (oracle_name b <> ("." <> a)) r names
            >> rebind_aliases loaded (oracle_name b) o aliases)
          h in
      let (_, u, bound, end) =
        >>=-eq-ok (rebind_consumers loaded a (oracle_name b <> ("." <> a)) r names)
          (λ _. rebind_aliases loaded (oracle_name b) o aliases) w rest in
      let (pu, agree') = consumers_agree b a _ o r names done w u pw im reads agree here bound in
      rw (push-append (name_items b a names) (alias_items b aliases) done)
        (aliases_agree b o aliases (push (name_items b a names) done) u v pu im agree' more end)

  table_agrees :
      (mods : List String) (table : Table) (done : List Item) (w v : World)
      → w.python ≡ py
      → AllAgree loaded w done
      → separate done (items table) ≡ true
      → rebind_loaded_oracle_aliases loaded mods table w ≡ (ok tt, v)
      → (v.python ≡ py) × AllAgree loaded v (push (items table) done)
  unfolding rebind_loaded_oracle_aliases items push
  table_agrees mods [] done w v pw agree s h =
      let (_, q) = ok-injective tt tt h in rw (← q) (pw, agree)
  table_agrees mods ((b, aliases) ∷ table) done w v pw agree s h =
      let (here, more) =
        both_true (separate done (alias_items b aliases)) _
          (sym (separate-append done (alias_items b aliases) (items table)) ∙ s) in
      let (_, k) =
        then_require w (contains mods b) runtime_error
          (import_module (oracle_name b) >>= λ o.
            rebind_aliases loaded (oracle_name b) o aliases
            >> rebind_loaded_oracle_aliases loaded mods table)
          h in
      let (o, im, rest) =
        then_import_module w (oracle_name b)
          (λ o.
            rebind_aliases loaded (oracle_name b) o aliases
            >> rebind_loaded_oracle_aliases loaded mods table)
          k in
      let (_, u, bound, end) =
        >>=-eq-ok (rebind_aliases loaded (oracle_name b) o aliases)
          (λ _. rebind_loaded_oracle_aliases loaded mods table) w rest in
      let (pu, agree') = aliases_agree b o aliases done w u pw (rw pw at im) agree here bound in
      rw (push-append (alias_items b aliases) (items table) done)
        (table_agrees mods table (push (alias_items b aliases) done) u v pu agree' more end)

oracle_alias_consumers-separate : separate [] (items oracle_alias_consumers) ≡ true
unfolding separate items oracle_alias_consumers
oracle_alias_consumers-separate = refl

import_all_python :
    (import_backend : String → M Ref) (names : List String) (w v : World)
    → ((n : String) (u u' : World) (x : Ref)
        → import_backend n u ≡ (ok x, u')
        → u'.python ≡ u.python)
    → import_all import_backend names w ≡ (ok tt, v)
    → v.python ≡ w.python
unfolding import_all
import_all_python import_backend [] w v keeps h =
    ap (λ (u : World). u.python) (sym (ok-injective tt tt h).1)
import_all_python import_backend (n ∷ names) w v keeps h =
    let (x, u, loads, rest) =
      >>=-eq-ok (import_backend n) (λ _. import_all import_backend names) w h in
    import_all_python import_backend names u v keeps rest ∙ keeps n w u x loads

then_note_end :
    (r : Result (Unit {0}) × World) (done : Bool) (v : World)
    → note_end r ≡ (ok tt, done, v)
    → (done ≡ true) × (r ≡ (ok tt, v))
then_note_end (ok t, w) done v h = (sym (ap (λ p. p.1) h), λ i. (ok tt, (h i).2))
then_note_end (raised e, w) done v h = cc (ap (λ p. p.0) h)

-- Where a first registration ends well, it is noted as done, and every module of the table that is
-- loaded reads, under each alias that the table has for it, the object that the oracle's module
-- then reads under that name. The conditions: to import a module that is loaded gives that module;
-- of the modules that the table names, two names are two modules, and none is a base of an object's
-- class; and to import the plugin's own modules does not change how Python finds modules and
-- attributes.
pub register-agrees :
    (loaded : String → Option Ref) (import_backend : String → M Ref) (done : Bool) (w v : World)
    (b a n : String) (c o : Ref)
    → IsModular w.python loaded
    → ((n : String) (u u' : World) (x : Ref)
        → import_backend n u ≡ (ok x, u')
        → u'.python ≡ u.python)
    → register loaded import_backend false w ≡ (ok tt, done, v)
    → Listed (b, a, n) (items oracle_alias_consumers)
    → loaded n ≡ some c
    → w.python.imports (oracle_name b) ≡ some o
    → (done ≡ true) × (get_attribute v c a ≡ get_attribute v o a)
unfolding register
register-agrees loaded import_backend done w v b a n c o m keeps h l at im =
    let (noted, ends) = then_note_end _ done v h in
    let (_, u, loads, bound) =
      >>=-eq-ok (import_all import_backend table_names)
        (λ _. rebind_loaded_oracle_aliases loaded table_names oracle_alias_consumers) w ends in
    let (pv, agree) =
      table_agrees w.python loaded m table_names oracle_alias_consumers [] u v
        (import_all_python import_backend table_names w u keeps loads) tt
        oracle_alias_consumers-separate bound in
    let listed = Listed-push (b, a, n) (items oracle_alias_consumers) [] (inl l) in
    (noted, Listed-Agrees loaded v b a n _ agree listed c o at (rw pv im))
