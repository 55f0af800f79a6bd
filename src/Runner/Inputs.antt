-- ===== src/Runner/Inputs.antt =====
-- `result_path`, `clean_environment` and `read_inputs` of scripts/ci/ppu_ops_runner.py.
use vllm_sail.Base.{String, ◌<>◌, Bool, true, false, ◌&&◌, not, Option, none, some}
use vllm_sail.Base.{
  List, [], ◌∷◌, map, ◌==◌, string_eq, list_eq, option_eq, nat_eq, contains, all, select,
  find_first, if◌then◌else◌,
}
use vllm_sail.Base.Names.{Names, lookup, insert}
use vllm_sail.Base.Failing.{◌>>=◌, ◌>>◌, require}
use vllm_sail.Select.Formats.{decimal, is_nonempty}
use vllm_sail.Select.Config.{Config, known_boards, starts_with}
use vllm_sail.Select.Routes.{Group, MatrixEntry, matrix_eq}
use vllm_sail.Select.Environment.{EnvironmentFile, fingerprint_eq, validate_fingerprint}
use vllm_sail.Select.Build.{build_fingerprint}
use vllm_sail.Select.Selection.{Outside, Selection}
use vllm_sail.Select.Validate.{validate_selection}

unfoldable pub result_path : String → String → String → Bool → Option String
unfolding decimal string_eq
result_path run_id attempt group_id pod = do
  _ ← decimal run_id
  _ ← decimal attempt
  require (contains (map (λ b. b <> "-0") known_boards) group_id)
  some (
      (if pod then "/mnt/wl_nas" else "/wl_nas")
      <> ("/devops/" <> (run_id <> ("-" <> (attempt <> ("/ops-tests/" <> group_id))))))

abbrev removed : List String
removed =
    "PYTHONPATH" ∷ "PYTEST_ADDOPTS" ∷ "VLLM_VERSION" ∷ "VLLM_VERSION_OVERRIDE" ∷ "VLLM_PPU_USE_PLA"
    ∷ "VLLM_SOURCE_ROOT" ∷ "VLLM_USE_PRECOMPILED" ∷ "VLLM_USE_PRECOMPILED_RUST"
    ∷ "VLLM_PRECOMPILED_WHEEL_LOCATION" ∷ "PYTHONSTARTUP" ∷ "PYTHONHOME" ∷ []

abbrev is_kept : String × String → Bool
is_kept (k, v) = not (contains removed k) && not (starts_with k "SETUPTOOLS_SCM_PRETEND_VERSION")

-- The environment of the tests, for the resolved paths of the checkout and the isolated tree.
unfoldable pub clean_environment : Names String → String → String → Names String
unfolding insert starts_with string_eq nat_eq
clean_environment environment repo isolated = insert "PPU_CI_ISOLATED_ROOT" isolated (
    insert "PPU_CI_CHECKOUT" repo (
      insert "VLLM_USE_RUST_BENCH" "0" (
        insert "VLLM_USE_RUST_FRONTEND" "0" (
          insert "VLLM_PLUGINS" "ppu" (
            insert "VLLM_SAIL_USE_PLA" "1"
              (insert "PYTEST_DISABLE_PLUGIN_AUTOLOAD" "1" (select is_kept environment)))))))

abbrev required : List String
required =
    "WHEELS_DIR" ∷ "BUILD_MANIFEST_FILE" ∷ "SELECTION_FILE" ∷ "DEVICE_RESULTS_DIR" ∷ "DEVICE_BOARD"
    ∷ "DEVICE_GROUP_ID" ∷ "EXPECTED_SAIL_COMMIT" ∷ "EXPECTED_VLLM_COMMIT" ∷ "EXPECTED_BUILD_RUN_ID"
    ∷ "EXPECTED_BUILD_IMAGE" ∷ "CI_RUN_ID" ∷ "CI_RUN_ATTEMPT" ∷ "RUNTIME_IMAGE" ∷ []

abbrev is_given : Option String → Bool
is_given none = false
is_given (some s) = is_nonempty s

-- The files that are read, those of the checkout, what `validate_config` says, what the wheel
-- manifest's `verify` gives for the commits of vLLM and of the plugin, the diagnostics of the
-- build, and `json.loads` of a selection and of a matrix.
pub record Artifact : Type 0 where
  pub raw : String
  pub config_raw : String
  pub environment_raw : String
  pub checkout_config : String
  pub checkout_environment : String
  pub config_is_valid : Config → Bool
  pub verify : String → String → Option (Names String)
  pub diagnostics : Names String
  pub selection_of : String → Option Selection
  pub matrix_of : String → Option (List MatrixEntry)

-- What `read_inputs` gives.
pub record Inputs : Type 0 where
  pub raw : String
  pub original : Selection
  pub config : Config
  pub environment : EnvironmentFile
  pub manifest : Names String

-- `DISPATCH_MATRIX` is compared only where it is set.
abbrev check_matrix : Artifact → Selection → Option String → Option (Unit {0})
check_matrix a original none = some tt
check_matrix a original (some text) =
    a.matrix_of text >>= λ matrix. require (matrix == original.routes.matrix)

abbrev has_files : Group → Bool
has_files g = has_any g.files
  where
    has_any : List String → Bool
    has_any [] = false
    has_any (f ∷ fs) = true

unfoldable pub read_inputs : Outside → Artifact → Names String → Option Inputs
unfolding validate_selection validate_fingerprint build_fingerprint result_path lookup string_eq
    list_eq matrix_eq fingerprint_eq
read_inputs o a env = do
  require (all (λ k. is_given (lookup k env)) required)
  run_id ← lookup "CI_RUN_ID" env
  attempt ← lookup "CI_RUN_ATTEMPT" env
  build_run_id ← lookup "EXPECTED_BUILD_RUN_ID" env
  require (build_run_id == run_id)
  original ← a.selection_of a.raw
  config ← o.config_of a.config_raw
  environment ← o.environment_of a.environment_raw
  require (a.config_raw == a.checkout_config)
  require (a.environment_raw == a.checkout_environment)
  require (a.config_is_valid config)
  sail_commit ← lookup "EXPECTED_SAIL_COMMIT" env
  build_image ← lookup "EXPECTED_BUILD_IMAGE" env
  runtime_image ← lookup "RUNTIME_IMAGE" env
  vllm_commit ← lookup "EXPECTED_VLLM_COMMIT" env
  _ ←
      validate_selection o original a.config_raw a.environment_raw sail_commit build_run_id
        build_image runtime_image vllm_commit
  check_matrix a original (lookup "DISPATCH_MATRIX" env)
  group_id ← lookup "DEVICE_GROUP_ID" env
  board ← lookup "DEVICE_BOARD" env
  require (group_id == board <> "-0")
  group ← find_first (λ g. g.group_id == group_id) original.routes.groups
  require (has_files group)
  expected ← result_path run_id attempt group_id true
  results ← lookup "DEVICE_RESULTS_DIR" env
  require (results == expected)
  validate_fingerprint original.build_fingerprint
  manifest ← a.verify vllm_commit sail_commit
  actual ← build_fingerprint a.diagnostics manifest sail_commit vllm_commit build_image
  require (actual == original.build_fingerprint)
  some (record {
    raw = a.raw;
    original = original;
    config = config;
    environment = environment;
    manifest = manifest;
  })
