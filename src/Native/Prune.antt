-- ===== src/Native/Prune.antt =====
-- `_BindingPruner` of vllm_sail/native/porting.py. The loops of `prune` and `_body` walk over the same
-- lines, so they are one pass here, whose mode tells which loop is at work. A file is a list of lines
-- that keep their ends; what is written is a list of texts.
use Prim.Native.Char.{Char, code}
use vllm_sail.Base.{ℕ, suc, String, Bool, false, not, ◌&&◌, ◌||◌, Option, none, some, ◌<>◌}
use vllm_sail.Base.{List, [], ◌∷◌, ◌++◌, map, ◌==◌, string_eq, nat_eq, contains, if◌then◌else◌}
use vllm_sail.Base.Failing.{◌>>=◌}
use vllm_sail.Base.Names.{Names, lookup}
use vllm_sail.Base.Sorting.{add}
use vllm_sail.Select.Config.{starts_with}
use vllm_sail.Native.Manifest.{Entry}
use vllm_sail.Native.Render.{ExcludedOp, join_with}

-- The regular expressions: the namespace of a line that opens a block, the kind of a statement's
-- call, its string literals, the statement with empty literals, and the name at the start of a text.
-- `strip` and `partition` are the methods of `str`, the latter at "->".
pub record Patterns : Type 0 where
  pub block : String → Option String
  pub call : String → Option String
  pub strings : String → List String
  pub without_strings : String → String
  pub op_name : String → Option String
  pub strip : String → String
  pub partition : String → String × String
  pub mentions : String → String → Bool

-- What the pruner keeps. The operations are keyed by their namespaces and names.
pub record Pruner : Type 0 where
  pub excluded : List ((String × String) × ExcludedOp)
  pub unclaimed : List String
  pub dropped : ℕ

pub record Tiers : Type 0 where
  pub entries : List Entry
  pub compiled : List String
  pub hazards : Names String

-- `{op: entry for entry in manifest for op in entry.ops}`, where the last entry counts.
unfoldable pub owner_of : List Entry → String → Option Entry
unfolding string_eq
owner_of [] op = none
owner_of (e ∷ es) op = elim (owner_of es op) [
  | some f ↦ some f
  | none ↦ if contains e.ops op then some e else none
]

unfoldable pub has_char : Char → String → Bool
unfolding nat_eq
has_char c String.[] = false
has_char c (String.◌∷◌ d s) = code d == code c || has_char c s

-- `"".join(ts)`
abbrev pub concat : List String → String
concat [] = ""
concat (t ∷ ts) = t <> concat ts

-- `d[key] = op`
unfoldable pub put :
    String × String
    → ExcludedOp
    → List ((String × String) × ExcludedOp)
    → List ((String × String) × ExcludedOp)
unfolding string_eq
put key op [] = (key, op) ∷ []
put key op ((k, o) ∷ d) =
    let rest = put key op d in if key.0 == k.0 && key.1 == k.1 then (key, op) ∷ d else (k, o) ∷ rest

module _ (r : Patterns) (t : Tiers) where
  -- `_complete`
  unfoldable pub complete : String → Bool
  unfolding has_char
  complete text = has_char ";" (r.without_strings text)

  -- `_op_name`
  unfoldable pub op_name : String → String → Option String
  unfolding string_eq
  op_name text kind = named (r.strings text)
    where
      named : List String → Option String
      named [] = none
      named (first ∷ others) =
          r.op_name (r.strip (if kind == "def" then concat (first ∷ others) else first))

  -- `_schema`
  unfoldable pub schema : String → String
  schema text = r.strip (concat (r.strings text))

  -- `_is_probe`
  unfoldable pub is_probe : String → Bool
  unfolding string_eq
  is_probe s =
      r.strip ((r.partition s).1) == "bool" && not (r.mentions "Tensor" ((r.partition s).0))

  abbrev described : List String → String
  described [] = "no PPU implementation"
  described (x ∷ xs) = join_with "; " (x ∷ xs)

  abbrev or_self : String → Option String → String
  or_self h none = h
  or_self h (some text) = text

  -- `_reason`
  unfoldable pub reason : Option Entry → String
  unfolding lookup string_eq
  reason none = "not declared in csrc/upstream/manifest.toml"
  reason (some e) = described (map (λ h. or_self h (lookup h t.hazards)) e.hazards)

  abbrev pub is_compiled : Option Entry → Bool
  unfolding string_eq
  is_compiled none = false
  is_compiled (some e) = contains t.compiled e.tier

  abbrev tier_of : Option Entry → String
  tier_of none = "unclaimed"
  tier_of (some e) = e.tier

  abbrev claimed : String → Option Entry → List String → List String
  unfolding add
  claimed name none names = add name names
  claimed name (some e) names = names

  -- The end of `_settle`: a statement of an operation that is not compiled.
  unfoldable pub drop_statement : String → String → String → String → Pruner → Pruner
  unfolding put add schema is_probe reason string_eq claimed
  drop_statement namespace text kind name p =
      let op : ExcludedOp = record {
        namespace = namespace;
        name = name;
        schema = schema text;
        kind = if is_probe (schema text) then "probe" else "compute";
        tier = tier_of (owner_of t.entries name);
        reason = reason (owner_of t.entries name);
      } in
      record {
        excluded = if kind == "def" then put (namespace, name) op p.excluded else p.excluded;
        unclaimed = claimed name (owner_of t.entries name) p.unclaimed;
        dropped = suc p.dropped;
      }

  -- The call of a statement, and the operation that it registers.
  abbrev pub registered : String → Option (String × String)
  unfolding op_name
  registered text = r.call text >>= λ kind. op_name text kind >>= λ name. some (kind, name)

  -- `_settle`, with what is written so far.
  unfoldable pub settle :
      List String → List String → List String → String → Pruner → List String × Pruner
  unfolding drop_statement registered is_compiled owner_of string_eq
  settle out pending statement namespace p = elim (registered (concat statement)) [
    | none ↦ (out ++ pending ++ concat statement ∷ [], p)
    | some call ↦
        if is_compiled (owner_of t.entries (call.1))
        then (out ++ pending ++ concat statement ∷ [], p)
        else (out, drop_statement namespace (concat statement) (call.0) (call.1) p)
  ]

-- The loop at work: the outer one, the one up to the line with a brace, or `_body`.
pub data Mode : Type 0 where
  outside : Mode
  opening : String → Mode
  inside : String → List String → List String → Mode

pub record State : Type 0 where
  pub mode : Mode
  pub out : List String
  pub pruner : Pruner

module _ (r : Patterns) (t : Tiers) where
  -- A statement in `_body`, after a line was added to it.
  unfoldable pub in_statement : String → List String → List String → State → State
  unfolding complete settle
  in_statement namespace pending statement s =
      let settled = settle r t s.out pending statement namespace s.pruner in
      if complete r t (concat statement)
      then record { mode = inside namespace [] []; out = settled.0; pruner = settled.1 }
      else record s { mode = inside namespace pending statement }

  abbrev write : Mode → List String → State → State
  write mode lines s = record s { mode = mode; out = s.out ++ lines }

  -- One line.
  unfoldable pub step : Mode → String → State → State
  unfolding has_char in_statement starts_with string_eq
  step outside line s = elim (r.block line) [
    | none ↦ write outside (line ∷ []) s
    | some namespace ↦
        write (if has_char "{" line then inside namespace [] [] else opening namespace) (line ∷ [])
          s
  ]
  step (opening namespace) line s =
      write (if has_char "{" line then inside namespace [] [] else opening namespace) (line ∷ []) s
  step (inside namespace pending []) line s =
      let stripped = r.strip line in
      if stripped == "}" || stripped == "};"
      then write outside (pending ++ line ∷ []) s
      else if starts_with stripped "#"
      then write (inside namespace [] []) (pending ++ line ∷ []) s
      else if stripped == "" || starts_with stripped "//"
      then record s { mode = inside namespace (pending ++ line ∷ []) [] }
      else in_statement namespace pending (line ∷ []) s
  step (inside namespace pending (x ∷ xs)) line s =
      in_statement namespace pending (x ∷ xs ++ line ∷ []) s

  unfoldable pub steps : List String → State → State
  unfolding step
  steps [] s = s
  steps (line ∷ lines) s = steps lines (step s.mode line s)

  abbrev pub finished : Mode → State → Option (List String × Pruner)
  finished outside s = some (s.out, s.pruner)
  finished (opening namespace) s = none
  finished (inside namespace pending statement) s = none

  abbrev pub beginning : Pruner → State
  beginning p = record { mode = outside; out = []; pruner = record p { dropped = 0 } }

  -- `prune`. A block that is not closed raises.
  unfoldable pub prune : List String → Pruner → Option (List String × Pruner)
  unfolding steps
  prune lines p = let s = steps lines (beginning p) in finished s.mode s
