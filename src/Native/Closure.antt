-- ===== src/Native/Closure.antt =====
-- The include closure of vllm_sail/native/porting.py. A path is relative to the source root. Every
-- exception is `none`.
use vllm_sail.Base.{ℕ, zero, suc, String, Bool, Option, none, some}
use vllm_sail.Base.{List, [], ◌∷◌, ◌++◌, string_eq, contains, if◌then◌else◌}
use vllm_sail.Base.Sorting.{sorted, sorted_set}
use vllm_sail.Base.Failing.{◌>>=◌, ◌>>◌, require}
use vllm_sail.Select.Config.{starts_with}

-- The source tree: `includes` are the names that match `_INCLUDE_RE` in the lines of a file, `join` is
-- `/` on paths, and `relative` is `.resolve().relative_to(src)`, which raises outside the root.
pub record Tree : Type 0 where
  pub is_file : String → Bool
  pub includes : String → List String
  pub parent : String → String
  pub join : String → String → String
  pub relative : String → Option String

-- `_resolve`, before the path is resolved.
unfoldable pub resolve : Tree → String → String → Option String
resolve t include includer =
    let own = t.join (t.parent includer) include in
    let common = t.join "csrc" include in
    if t.is_file own then some own else if t.is_file common then some common else none

-- The loop's variables. The queue is taken from its end, which stands first here, and headers are
-- put in front.
pub record State : Type 0 where
  pub headers : List String
  pub unresolved : List String
  pub seen : List String
  pub queue : List String

-- A file that is reached.
unfoldable pub reach : String → State → State
unfolding string_eq
reach found s =
    if contains s.seen found
    then s
    else record s { headers = found ∷ s.headers; seen = found ∷ s.seen; queue = found ∷ s.queue }

module _ (t : Tree) where
  -- One line that includes a file.
  unfoldable pub note_include : String → String → State → Option State
  unfolding resolve reach starts_with
  note_include rel include s = elim (resolve t include rel) [
    | none ↦ some (record s { unresolved = include ∷ s.unresolved })
    | some target ↦
        t.relative target >>= λ found. require (starts_with found "csrc/") >> some (reach found s)
  ]

  unfoldable pub note_includes : String → List String → State → Option State
  unfolding note_include
  note_includes rel [] s = some s
  note_includes rel (i ∷ is) s = note_include rel i s >>= note_includes rel is

  -- `while queue:`, for a number of rounds.
  unfoldable pub explore : ℕ → State → Option State
  unfolding note_includes
  explore zero s = some s
  explore (suc fuel) s = elim s.queue [
    | [] ↦ some s
    | rel ∷ queue ↦ note_includes rel (t.includes rel) (record s { queue = queue }) >>= explore fuel
  ]

  -- The checks of the sources.
  unfoldable pub check_sources : List String → Option (Unit {0})
  unfolding starts_with
  check_sources [] = some tt
  check_sources (path ∷ paths) =
      require (t.is_file path) >> (require (starts_with path "csrc/") >> check_sources paths)

abbrev pub backwards : List String → List String
backwards [] = []
backwards (x ∷ xs) = backwards xs ++ x ∷ []

abbrev pub start : List String → State
start sources = record { headers = []; unresolved = []; seen = sources; queue = backwards sources }

-- What `_closure_paths` returns, with what is left in the queue.
pub record Closure : Type 0 where
  pub sources : List String
  pub headers : List String
  pub unresolved : List String
  pub left : List String

-- `_closure_paths`
unfoldable pub closure_paths : ℕ → Tree → List String → Option Closure
unfolding check_sources explore sorted sorted_set
closure_paths fuel t sources = do
  check_sources t sources
  s ← explore t fuel (start sources)
  some (record {
    sources = sources;
    headers = sorted s.headers;
    unresolved = sorted_set s.unresolved;
    left = s.queue;
  })
