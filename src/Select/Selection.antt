-- ===== src/Select/Selection.antt =====
-- `make_selection` of scripts/ci/ppu_ops_select.py.
use vllm_sail.Base.{ℕ, String, Bool, not, ◌&&◌, Option, some}
use vllm_sail.Base.{List, ◌∷◌, ◌==◌, string_eq, option_eq, select, if◌then◌else◌}
use vllm_sail.Base.Names.{Names}
use vllm_sail.Base.Sorting.{sorted, sorted_set}
use vllm_sail.Base.Failing.{◌>>=◌, ◌>>◌}
use vllm_sail.Select.Formats.{digest_image, decimal}
use vllm_sail.Select.Config.{Config}
use vllm_sail.Select.Choice.{Choice, select_tests}
use vllm_sail.Select.Routes.{Routes, route_tests}
use vllm_sail.Select.Environment.{
  Fingerprint, fingerprint_eq, EnvironmentFile, validate_environment,
}
use vllm_sail.Select.Build.{Changes, build_fingerprint, validate_changes}

-- What the code calls and does not implement: `fnmatch.fnmatchcase`, `str.lower`, SHA-256, and the
-- two files as they are read (`json.loads`, then `discover_catalog` for the configuration). Nothing
-- is assumed of them, but that a second reading gives the same.
pub record Outside : Type 0 where
  pub glob : String → String → Bool
  pub lower : String → String
  pub checksum : String → String
  pub config_of : String → Option Config
  pub environment_of : String → Option EnvironmentFile

pub record Selection : Type 0 where
  pub schema : ℕ
  pub choice : Choice
  pub routes : Routes
  pub base_sha : Option String
  pub head_sha : Option String
  pub tested_sha : String
  pub changed_files : List String
  pub build_run_id : String
  pub config_sha256 : String
  pub environment_sha256 : String
  pub build_fingerprint : Fingerprint
  pub runtime_image : String

-- `(set(reasons) - {"environment_changed"}) | {"environment_unqualified"}`, where the environment is
-- not qualified.
abbrev pub with_reasons : Bool → Choice → Choice
with_reasons qualified ch = if qualified then ch else record ch {
  reasons =
      sorted_set
        ("environment_unqualified" ∷ select (λ r. not (r == "environment_changed")) ch.reasons);
}

-- The fingerprint and the image are those of the qualified environment.
abbrev pub environment_matches : Bool → EnvironmentFile → Fingerprint → String → Bool
environment_matches qualified e f image =
    qualified && e.build == some f && e.runtime_image == some image

-- What a selection is made from, next to the two files.
pub record Request : Type 0 where
  pub config_bytes : String
  pub environment_bytes : String
  pub changes : Changes
  pub diagnostics : Names String
  pub wheels : Names String
  pub build_run_id : String
  pub build_image : String
  pub runtime_image : String
  pub expected_vllm_commit : String
  pub force_full : Bool

unfoldable pub make_selection : Outside → Request → Option Selection
unfolding validate_environment validate_changes build_fingerprint select_tests route_tests decimal
    digest_image option_eq string_eq fingerprint_eq sorted
make_selection o q = do
  config ← o.config_of q.config_bytes
  environment ← o.environment_of q.environment_bytes
  qualified ← validate_environment o.lower environment
  validate_changes q.changes
  _ ← decimal q.build_run_id
  _ ← digest_image q.runtime_image
  fingerprint ←
      build_fingerprint q.diagnostics q.wheels q.changes.tested_sha q.expected_vllm_commit
        q.build_image
  chosen ←
      select_tests o.glob config q.changes.paths q.changes.complete q.force_full
        (environment_matches qualified environment fingerprint q.runtime_image)
  routes ← route_tests config chosen.test_ids
  some (record {
    schema = 1;
    choice = with_reasons qualified chosen;
    routes = routes;
    base_sha = q.changes.base_sha;
    head_sha = q.changes.head_sha;
    tested_sha = q.changes.tested_sha;
    changed_files = sorted q.changes.paths;
    build_run_id = q.build_run_id;
    config_sha256 = o.checksum q.config_bytes;
    environment_sha256 = o.checksum q.environment_bytes;
    build_fingerprint = fingerprint;
    runtime_image = q.runtime_image;
  })
