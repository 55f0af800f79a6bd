-- ===== src/Moe/Rebind.antt =====
-- vllm_sail/registry/moe_backends/__init__.py: the modules that took an oracle's function before
-- the plugin replaced it get the replacement.
use vllm_sail.Base.{String, ◌<>◌, Bool, true, false, Option, none, some, List, [], ◌∷◌, ◌==◌}
use vllm_sail.Base.{contains, map, nat_eq, string_eq, option_eq, if◌then◌else◌}
use vllm_sail.Base.Names.{Names, lookup}
use vllm_sail.Patch.Heap.{Ref, Cell, marker, World, get_attribute}
use vllm_sail.Patch.Monad.{
  attribute_error, runtime_error, Result, ok, raised, M, ◌>>=◌, ◌>>◌, return, raise, require, found,
}
use vllm_sail.Patch.Attributes.{Metadata, patch_marker}
use vllm_sail.Patch.Install.{import_module}
use vllm_sail.Patch.Run.{patch}
mod Consumers
pub mod Tests
pub use Consumers.{Table, Aliases}
unfoldable pub use Consumers.{oracle_alias_consumers}

abbrev pub oracle_name : String → String
oracle_name backend = "vllm.model_executor.layers.fused_moe.oracle." <> backend

abbrev pub metadata : Metadata
metadata = record {
  reason =
      "vLLM 0.31 captured this MoE oracle function before PPU registration, so the consumer would bypass PPU DeepGEMM selection or preparation.";
  affected_versions = ">=0.31.0,<0.32.0";
  remove_when =
      "vLLM imports MoE selectors through a registration API instead of capturing module-level aliases before plugin registration.";
}

-- `originals.get(target)` has to be what the consumer has captured.
unfoldable pub check_entry : Cell → String → Ref → M (Unit {0})
unfolding lookup option_eq nat_eq
check_entry (marker entries) target captured =
    require (lookup target entries == some (some captured)) runtime_error
check_entry _ target captured = raise attribute_error

unfoldable pub check_captured : Ref → String → Ref → M (Unit {0})
unfolding check_entry get_attribute
check_captured replacement target captured w = elim (get_attribute w replacement patch_marker) [
  | none ↦ (raised runtime_error, w)
  | some d ↦ check_entry (w.cell d) target captured w
]

-- A consumer that is loaded, for what it has captured.
unfoldable pub rebind_captured : String → String → String → Ref → Ref → M (Unit {0})
unfolding check_captured patch nat_eq
rebind_captured consumer_name alias_name target replacement captured =
    if captured == replacement then return tt else (do
      check_captured replacement target captured
      _ ← patch consumer_name (some alias_name) false metadata replacement
      return tt)

-- `loaded` is `sys.modules.get`.
module _ (loaded : String → Option Ref) where
  unfoldable pub rebind_consumer : String → String → Ref → String → M (Unit {0})
  unfolding rebind_captured get_attribute
  rebind_consumer alias_name target replacement consumer_name w = elim (loaded consumer_name) [
    | none ↦ (ok tt, w)
    | some consumer ↦
        (found (get_attribute w consumer alias_name) attribute_error
            >>= rebind_captured consumer_name alias_name target replacement)
          w
  ]

  unfoldable pub rebind_consumers : String → String → Ref → List String → M (Unit {0})
  unfolding rebind_consumer
  rebind_consumers alias_name target replacement [] = return tt
  rebind_consumers alias_name target replacement (name ∷ names) =
      rebind_consumer alias_name target replacement name
      >> rebind_consumers alias_name target replacement names

  unfoldable pub rebind_aliases : String → Ref → Aliases → M (Unit {0})
  unfolding rebind_consumers get_attribute
  rebind_aliases oracle oracle_module [] = return tt
  rebind_aliases oracle oracle_module ((alias_name, names) ∷ aliases) = do
    replacement ← λ w. found (get_attribute w oracle_module alias_name) attribute_error w
    rebind_consumers alias_name (oracle <> ("." <> alias_name)) replacement names
    rebind_aliases oracle oracle_module aliases

  -- The loop of `_rebind_loaded_oracle_aliases`, over a table and the names of the modules that the
  -- plugin has imported.
  unfoldable pub rebind_loaded_oracle_aliases : List String → Table → M (Unit {0})
  unfolding rebind_aliases string_eq
  rebind_loaded_oracle_aliases backend_modules [] = return tt
  rebind_loaded_oracle_aliases backend_modules ((backend, aliases) ∷ table) = do
    require (contains backend_modules backend) runtime_error
    oracle_module ← import_module (oracle_name backend)
    rebind_aliases (oracle_name backend) oracle_module aliases
    rebind_loaded_oracle_aliases backend_modules table

-- `importlib.import_module` of the plugin's own modules, which extend the enums and patch the
-- oracles.
unfoldable pub import_all : (String → M Ref) → List String → M (Unit {0})
import_all import_backend [] = return tt
import_all import_backend (name ∷ names) = do
  _ ← import_backend name
  import_all import_backend names

unfoldable pub table_names : List String
unfolding oracle_alias_consumers
table_names = map (λ row. row.0) oracle_alias_consumers

-- `_registered` becomes true where the registration ends well.
abbrev pub note_end : Result (Unit {0}) × World → Result (Unit {0}) × Bool × World
note_end (ok t, w) = (ok t, true, w)
note_end (raised e, w) = (raised e, false, w)

unfoldable pub register :
    (String → Option Ref) → (String → M Ref) → Bool → World → Result (Unit {0}) × Bool × World
unfolding import_all rebind_loaded_oracle_aliases table_names
register loaded import_backend true w = (ok tt, true, w)
register loaded import_backend false w = note_end (
    (import_all import_backend table_names
        >> rebind_loaded_oracle_aliases loaded table_names oracle_alias_consumers)
      w)
