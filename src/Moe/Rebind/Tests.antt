-- ===== src/Moe/Rebind/Tests.antt =====
-- A process in which one consumer was loaded before the plugin, and the theorem on the registration
-- at it.
use mathlib.Core.Option.{some-injective}
use vllm_sail.Base.{String, ◌≡◌, refl, sym, ap, ◌∙◌, Bool, true, false, Option, none, some}
use vllm_sail.Base.{◌<>◌, [], ◌∷◌, ◌==◌, inl, inr, nat_eq, string_eq, option_eq}
use vllm_sail.Base.{if◌then◌else◌, contains, map, arith, Bool-cases, ==_true, ==_refl}
use vllm_sail.Base.Names.{Names, lookup, insert}
use vllm_sail.Patch.Heap.{
  Ref, plain, marker, Python, World, get_attribute, lookup_bases, put_attribute,
}
use vllm_sail.Patch.Monad.{ok, M}
use vllm_sail.Patch.Commit.{ok-injective}
use vllm_sail.Patch.Attributes.{patch_marker}
use vllm_sail.Moe.Rebind.{register, oracle_alias_consumers, oracle_name}
use vllm_sail.Moe.Placed.{IsModular}
use vllm_sail.Moe.Items.{items}
use vllm_sail.Moe.Rebound.{register-agrees}

abbrev consumer_name : String
consumer_name = "vllm.model_executor.layers.fused_moe.unquantized_fused_moe_method"

abbrev alias : String
alias = "select_unquantized_moe_backend"

abbrev modules : Names Ref
modules =
    (consumer_name, 10)
    ∷ (oracle_name "unquantized", 1)
    ∷ (oracle_name "fp8", 2)
    ∷ (oracle_name "int8", 3)
    ∷ (oracle_name "mxfp4", 4)
    ∷ (oracle_name "int_wna16", 5)
    ∷ []

-- `lookup` finds a value that is in the list.
lookup_there :
    (n : String) (c : Ref) (ms : Names Ref)
    → lookup n ms ≡ some c
    → contains (map (λ e. e.1) ms) c ≡ true
unfolding lookup
lookup_there n c [] h = cc
lookup_there n c ((k, r) ∷ ms) h = elim (Bool-cases (n == k)) [
  | inl same ↦ let e : r ≡ c = some-injective r c (rw same at h) in rw e (ground (arith, ==_refl c))
  | inr other ↦ let k = lookup_there n c ms (rw other at h) in ground arith
]

abbrev AllDiffer : Names Ref → Type 0
AllDiffer [] = Unit
AllDiffer ((k, r) ∷ ms) = (contains (map (λ e. e.1) ms) r ≡ false) × AllDiffer ms

-- Where all values differ, a value has one name.
lookup_once :
    (n m : String) (c : Ref) (ms : Names Ref)
    → AllDiffer ms
    → lookup n ms ≡ some c
    → lookup m ms ≡ some c
    → n ≡ m
unfolding lookup
lookup_once n m c [] d h h' = cc
lookup_once n m c ((k, r) ∷ ms) (fresh, d) h h' = elim (Bool-cases (n == k)) [
  | inl same ↦ elim (Bool-cases (m == k)) [
    | inl same' ↦ ==_true n k same ∙ sym (==_true m k same')
    | inr other' ↦
        let e : r ≡ c = some-injective r c (rw same at h) in
        let there = lookup_there m c ms (rw other' at h') in
        let k : false ≡ true = sym fresh ∙ rw e there in cc
  ]
  | inr other ↦ elim (Bool-cases (m == k)) [
    | inl same' ↦
        let e : r ≡ c = some-injective r c (rw same' at h') in
        let there = lookup_there n c ms (rw other at h) in
        let k : false ≡ true = sym fresh ∙ rw e there in cc
    | inr other' ↦ lookup_once n m c ms d (rw other at h) (rw other' at h')
  ]
]

abbrev python : Python
python = record {
  bases = λ r. [];
  imports = λ n. lookup n modules;
  settable = λ r k. true;
  name_of = λ r. "";
  source_of = λ r. none;
  equal = λ a b. a == b;
}

abbrev loaded : String → Option Ref
loaded n = if n == consumer_name then some 10 else none

python-IsModular : IsModular python loaded
unfolding nat_eq lookup
python-IsModular = record {
  imported = λ n c h. ground arith;
  distinct = λ n m c named named' h h'.
      lookup_once n m c modules (refl, (refl, (refl, (refl, (refl, (refl, tt)))))) h h';
  no_base = λ r n c named h. refl;
}

-- 40 is vLLM's function, which the consumer has captured, and 50 the plugin's, with its marker 60.
abbrev aliases : Names Ref
aliases =
    (alias, 50)
    ∷ ("backend_to_kernel_cls", 50)
    ∷ ("select_fp8_moe_backend", 50)
    ∷ ("convert_to_fp8_moe_kernel_format", 50)
    ∷ ("make_fp8_moe_quant_config", 50)
    ∷ ("convert_to_int8_moe_kernel_format", 50)
    ∷ ("make_int8_moe_quant_config", 50)
    ∷ ("select_int8_moe_backend", 50)
    ∷ ("convert_gpt_oss_weight_to_mxfp4_moe_kernel_format", 50)
    ∷ ("convert_weight_to_mxfp4_moe_kernel_format", 50)
    ∷ ("make_mxfp4_moe_quant_config", 50)
    ∷ ("mxfp4_round_up_hidden_size_and_intermediate_size", 50)
    ∷ ("select_mxfp4_moe_backend", 50)
    ∷ ("select_deepseek_v4_mxfp4_moe_backend", 50)
    ∷ ("select_wna16_moe_backend", 50)
    ∷ ("make_wna16_moe_kernel", 50)
    ∷ ("convert_to_wna16_moe_kernel_format", 50)
    ∷ []

abbrev before : World
before = record {
  cell = λ r.
      if r == 60
      then marker ((oracle_name "unquantized" <> ("." <> alias), some 40) ∷ [])
      else plain;
  own = λ r.
      if r == 10
      then (alias, 40) ∷ []
      else if r == 50
      then (patch_marker, 60) ∷ []
      else if contains (1 ∷ 2 ∷ 3 ∷ 4 ∷ 5 ∷ []) r
      then aliases
      else [];
  fresh = 100;
  registry = [];
  python = python;
}

abbrev import_backend : String → M Ref
import_backend n w = (ok 0, w)

abbrev after : World
after = (register loaded import_backend false before).2

register-agrees_example :
    (◌≡◌ {A = Bool} true true) × (get_attribute after 10 alias ≡ get_attribute after 1 alias)
unfolding register oracle_alias_consumers items string_eq nat_eq lookup lookup_bases put_attribute
    insert
register-agrees_example =
    register-agrees loaded import_backend true before after "unquantized" alias consumer_name 10 1
      python-IsModular (λ n u u' x h. ap (λ (w : World). w.python) (sym (ok-injective 0 x h).1))
      refl (inl refl) refl refl

-- Before, the consumer read vLLM's function.
captured : get_attribute before 10 alias ≡ some 40
unfolding get_attribute lookup string_eq nat_eq
captured = refl

rebound : get_attribute after 10 alias ≡ some 50
unfolding register oracle_alias_consumers string_eq nat_eq lookup lookup_bases put_attribute insert
rebound = refl
