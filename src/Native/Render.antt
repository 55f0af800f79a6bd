-- ===== src/Native/Render.antt =====
-- The file of excluded operations that vllm_sail/native/porting.py writes.
use Prim.Native.Char.{Char, code}
use vllm_sail.Base.{String, ◌<>◌}
use vllm_sail.Base.{List, [], ◌∷◌, ◌++◌, ◌==◌, nat_eq, if◌then◌else◌}
use vllm_sail.Native.Manifest.{Manifest}

abbrev pub backslash : Char
backslash = "\\"

abbrev pub quote : Char
quote = "\""

-- `s.replace(old, a + b)`, for three characters.
unfoldable pub replace_char : Char → Char → Char → String → String
unfolding nat_eq
replace_char old a b String.[] = String.[]
replace_char old a b (String.◌∷◌ c s) =
    let rest = replace_char old a b s in
    if code c == code old then String.◌∷◌ a (String.◌∷◌ b rest) else String.◌∷◌ c rest

-- `_escape`
unfoldable pub escape : String → String
unfolding replace_char
escape value = replace_char quote backslash quote (replace_char backslash backslash backslash value)

pub record ExcludedOp : Type 0 where
  pub namespace : String
  pub name : String
  pub schema : String
  pub kind : String
  pub tier : String
  pub reason : String

-- `f'key = "{_escape(value)}"'`
unfoldable pub field_line : String → String → String
unfolding escape
field_line key value = key <> " = \"" <> escape value <> "\""

abbrev pub op_lines : ExcludedOp → List String
op_lines op =
    "[[op]]"
    ∷ field_line "namespace" op.namespace
    ∷ field_line "name" op.name
    ∷ field_line "schema" op.schema
    ∷ field_line "kind" op.kind
    ∷ field_line "tier" op.tier
    ∷ field_line "reason" op.reason
    ∷ ""
    ∷ []

abbrev pub all_op_lines : List ExcludedOp → List String
all_op_lines [] = []
all_op_lines (op ∷ ops) = op_lines op ++ all_op_lines ops

-- `separator.join(texts)`
abbrev pub join_with : String → List String → String
join_with separator [] = ""
join_with separator (t ∷ []) = t
join_with separator (t ∷ u ∷ ts) = t <> separator <> join_with separator (u ∷ ts)

abbrev pub header_lines : Manifest → List String
header_lines m =
    "# SPDX-License-Identifier: Apache-2.0"
    ∷ "#"
    ∷ "# GENERATED by tools/port_upstream_kernels.py -- do not edit."
    ∷ "#"
    ∷ "# Every upstream op whose translation unit sits outside the compiled"
    ∷ "# tiers. vllm_sail/native/stubs.py registers each one so a call fails"
    ∷ "# with a named NotImplementedError instead of an AttributeError, and so"
    ∷ "# capability probes answer False instead of raising."
    ∷ ("# Upstream vLLM "
        <> m.upstream_ref
        <> "; compiled tiers "
        <> join_with ", " m.compiled_tiers
        <> ".")
    ∷ ""
    ∷ []

-- `render_excluded_ops`
unfoldable pub render_excluded_ops : Manifest → List ExcludedOp → String
unfolding field_line
render_excluded_ops m ops = join_with "\n" (header_lines m ++ all_op_lines ops)
