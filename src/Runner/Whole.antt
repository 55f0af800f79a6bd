-- ===== src/Runner/Whole.antt =====
-- Results of scripts/ci/ppu_ops_runner.py that are accepted as a whole.
use vllm_sail.Base.{◌≡◌, ◌⊎◌}
use vllm_sail.Base.{List, [], ◌∷◌, string_eq, list_eq, nat_eq}
use vllm_sail.Base.{option_eq}
use vllm_sail.Select.Config.{Config}
use vllm_sail.Select.Routes.{Group}
use vllm_sail.Select.Environment.{fingerprint_eq}
use vllm_sail.Select.Selection.{Selection}
use vllm_sail.Runner.Evidence.{effective_eq}
use vllm_sail.Runner.Group.{Directory, RunSetting, identity_eq, selection_eq}

module _ (x : RunSetting) (c : Config) where
  -- Among the directories.
  abbrev pub Among : Directory → List Directory → Type 0
  Among d [] = ⊥
  Among d (e ∷ es) = (d ≡ e) ⊎ Among d es
