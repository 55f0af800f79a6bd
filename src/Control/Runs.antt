-- ===== src/Control/Runs.antt =====
-- The workflow's runs: `find_runs` of scripts/ci/ppu_ci_command.py. What the pages hold is
-- given; `run_head_sha` is the run's `head_sha`, and `title` is what the pattern `TITLE` reads in a run's title.
use vllm_sail.Base.{ℕ, String, Bool, true, false, ◌&&◌, Option, none, some}
use vllm_sail.Base.{List, [], ◌∷◌, ◌==◌, string_eq, nat_eq, select, if◌then◌else◌, ltb}

pub record Title : Type 0 where
  pub number : ℕ
  pub head_sha : String
  pub comment_id : ℕ

pub record Run : Type 0 where
  pub id : ℕ
  pub run_head_sha : String
  pub title : Option Title
  pub event : String
  pub path : String
  pub head_branch : String
  pub repository : String
  pub status : String
  pub conclusion : String

abbrev pub title_fits : Option ℕ → Option String → Option Title → Bool
title_fits number sha none = false
title_fits none none (some t) = true
title_fits none (some sha) (some t) = t.head_sha == sha
title_fits (some number) none (some t) = t.number == number
title_fits (some number) (some sha) (some t) = t.number == number && t.head_sha == sha

-- The test in the loop, for a pull request or none, and a head commit or none.
unfoldable pub is_run_of : String → String → Option ℕ → Option String → Run → Bool
unfolding string_eq nat_eq
is_run_of repo default_branch number sha r =
    title_fits number sha r.title
    && r.event == "workflow_dispatch"
    && r.path == ".github/workflows/ppu-pr-ci.yaml"
    && r.head_branch == default_branch
    && r.repository == repo

unfoldable pub put_run : Run → List Run → List Run
put_run r [] = r ∷ []
put_run r (s ∷ ss) = let rest = put_run r ss in if ltb r.id s.id then s ∷ rest else r ∷ s ∷ ss

-- `sorted(found, key=lambda run: run["id"], reverse=True)`
unfoldable pub newest_first : List Run → List Run
unfolding put_run
newest_first [] = []
newest_first (r ∷ rs) = put_run r (newest_first rs)

unfoldable pub find_runs : String → String → Option ℕ → Option String → List Run → List Run
unfolding newest_first is_run_of
find_runs repo default_branch number sha rs =
    newest_first (select (is_run_of repo default_branch number sha) rs)
