-- ===== src/Control/Wheels.antt =====
-- Which earlier build's wheels a run may use again: `reusable_wheels` of
-- scripts/ci/ppu_ci_command.py.
use vllm_sail.Base.{ℕ, String, Bool, true, false, not, ◌&&◌, ◌||◌, Option, none, some}
use vllm_sail.Base.{
  List, [], ◌∷◌, ◌==◌, string_eq, nat_eq, any, all, contains, ltb, length, take, if◌then◌else◌,
}
use vllm_sail.Select.Config.{starts_with}
use vllm_sail.Control.Outcome.{Outcome, done, failed, Reply, ◌>>=◌, expect}
use vllm_sail.Control.Runs.{Title, Run, find_runs}

pub record FileChange : Type 0 where
  pub filename : String
  pub status : String
  pub previous_filename : Option String

-- `files` is `none` where it is no list.
pub record Comparison : Type 0 where
  pub status : String
  pub merge_base : String
  pub files : Option (List FileChange)

pub record Artifact : Type 0 where
  pub name : String
  pub expired : Option Bool

-- The environment, and what GitHub answers. `wheels_name` writes `ppu-wheels-` and the number.
pub record Builds : Type 0 where
  pub repo : String
  pub default_branch : String
  pub github_sha : String
  pub github_run_id : ℕ
  pub runs : Reply (List Run)
  pub artifacts : ℕ → Reply (List Artifact)
  pub compare : String → Reply Comparison
  pub wheels_name : ℕ → String

-- An earlier run that succeeded, of the same workflow revision.
unfoldable pub is_candidate : Builds → Run → Bool
unfolding string_eq
is_candidate b r =
    r.status == "completed"
    && r.conclusion == "success"
    && r.run_head_sha == b.github_sha
    && ltb 0 r.id
    && ltb r.id b.github_run_id

abbrev is_kept : Option Bool → Bool
is_kept (some false) = true
is_kept _ = false

abbrev pub is_wheels : Builds → ℕ → Artifact → Bool
is_wheels b id a = a.name == b.wheels_name id && is_kept a.expired

abbrev pub previous_paths : Option String → List String
previous_paths none = []
previous_paths (some p) = p ∷ []

-- Both ends of a renaming.
abbrev pub paths_of : FileChange → List String
paths_of f = f.filename ∷ previous_paths f.previous_filename

abbrev is_given : Option String → Bool
is_given none = false
is_given (some p) = true

-- `previous_filename` is there where it is read.
abbrev pub is_readable : FileChange → Bool
is_readable f = not (f.status == "renamed") || is_given f.previous_filename

-- A path of which the wheels do not depend.
unfoldable pub is_ignored : String → Bool
unfolding starts_with string_eq
is_ignored path =
    any (starts_with path) ("docs/" ∷ "tests/" ∷ ".github/workflows/" ∷ [])
    || path == "scripts/ci/ppu_ci_command.py"

-- The changed files, where the comparison is usable: the head descends from the source, and the list
-- is complete.
unfoldable pub usable_files : String → Comparison → Option (List FileChange)
unfolding string_eq
usable_files source c = usable c.files
  where
    usable : Option (List FileChange) → Option (List FileChange)
    usable none = none
    usable (some fs) =
        if contains ("ahead" ∷ "identical" ∷ []) c.status
          && c.merge_base == source
          && ltb (length fs) 300
        then some fs
        else none

-- Whether no changed path matters; a renaming without its old name raises.
unfoldable pub ignores_files : Option (List FileChange) → Outcome Bool
unfolding is_ignored string_eq
ignores_files none = done false
ignores_files (some fs) =
    if all is_readable fs then done (all (λ f. all is_ignored (paths_of f)) fs) else failed

abbrev pub source_of : Option Title → String
source_of none = ""
source_of (some t) = t.head_sha

-- Whether what changed from the source to the commit leaves the wheels as they are.
unfoldable pub is_same_build : Builds → String → String → Outcome Bool
unfolding usable_files ignores_files string_eq
is_same_build b sha source =
    if source == sha
    then done true
    else expect (b.compare source) >>= λ c. ignores_files (usable_files source c)

-- The loop over the runs.
unfoldable pub reuse : Builds → String → List Run → Outcome (Option (ℕ × String))
unfolding is_candidate is_same_build string_eq
reuse b sha [] = done none
reuse b sha (r ∷ rs) =
    let rest = reuse b sha rs in
    let source = source_of r.title in
    if is_candidate b r
    then (do
      artifacts ← expect (b.artifacts r.id)
      same ← if any (is_wheels b r.id) artifacts then is_same_build b sha source else done false
      if same then done (some (r.id, source)) else rest)
    else rest

unfoldable pub reusable_wheels : Builds → String → Outcome (Option (ℕ × String))
unfolding find_runs reuse
reusable_wheels b sha = do
  pages ← expect b.runs
  reuse b sha (take 20 (find_runs b.repo b.default_branch none none pages))
