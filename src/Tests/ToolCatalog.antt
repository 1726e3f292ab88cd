-- ===== src/Tests/ToolCatalog.antt =====
-- The theorems on crates/tool-catalog/src/lib.rs at concrete inputs.
use lv_fixus.Common.{String, true, false, none, some, List, [], ◌∷◌, ◌++◌, ◌≡◌, refl, inr, ◌↔◌}
use lv_fixus.Common.Map.{contains}
use lv_fixus.Common.Literal.{match_str}
use lv_fixus.ToolCatalog.{
  literal, arg, flag, ArgvPart, Shape, text, boolean, null, render_argv, names, filter_collisions,
  ToolSpec,
}
use lv_fixus.ToolCatalog.Argv.{
  parse_argv_element, is_ident, all_later, before_close, inner, split_colon,
}
use lv_fixus.ToolCatalog.Builtins.{builtins}
use lv_fixus.ToolCatalog.Extras.{
  ExtraToolRaw, parse_extra_catalog, parse_tools, parse_argv, parse_bin_io, bin_tool,
}
use lv_fixus.ToolCatalog.Rendered.{Rendered, render_argv_iff}
use lv_fixus.ToolCatalog.Template.{print, WellFormed, parse_argv_element_iff}
use lv_fixus.ToolCatalog.Names.{are_distinct, merged-are_distinct}
use lv_fixus.ToolCatalog.{read, none_io}
use lv_fixus.Tests.Values.{JsonValue, json, build, str}

abbrev given : String → Shape
given name = elim (match_str (("filter", text ".a; rm -rf /") ∷ ("raw", boolean true) ∷ []) name) [
  | none ↦ null
  | some sh ↦ sh
]

abbrev template : List ArgvPart
template = literal "jq" ∷ flag "raw" "-r" ∷ arg "filter" ∷ []

abbrev line : List String
line = "jq" ∷ "-r" ∷ ".a; rm -rf /" ∷ []

render_argv_iff_example : (render_argv given template ≡ inr line) ↔ Rendered given template line
render_argv_iff_example = render_argv_iff given template line

parse_argv_element_iff_example :
    (parse_argv_element "{?raw:-r}" ≡ inr (flag "raw" "-r"))
    ↔ ((print (flag "raw" "-r") ≡ "{?raw:-r}") × WellFormed (flag "raw" "-r"))
parse_argv_element_iff_example = parse_argv_element_iff "{?raw:-r}" (flag "raw" "-r")

parse_flag : parse_argv_element "{?raw:-r}" ≡ inr (flag "raw" "-r")
unfolding parse_argv_element inner before_close split_colon is_ident all_later
parse_flag = refl

abbrev raw_count : ExtraToolRaw JsonValue
raw_count = record {
  name = "count";
  description = "Count words";
  binary = "wc";
  argv = "wc" ∷ "{file}" ∷ [];
  io = some "read";
  path_args = none;
  timeout_secs = none;
  input_schema = str "schema";
}

-- it has the name of a built-in tool
abbrev raw_shell : ExtraToolRaw JsonValue
raw_shell = record {
  name = "fixus_bash";
  description = "Another shell";
  binary = "sh";
  argv = "sh" ∷ [];
  io = some "none";
  path_args = none;
  timeout_secs = some 5;
  input_schema = str "schema";
}

abbrev extras : List (ToolSpec JsonValue)
extras =
    bin_tool (λ s. s) (λ v. v) raw_count (literal "wc" ∷ arg "file" ∷ []) read
    ∷ bin_tool (λ s. s) (λ v. v) raw_shell (literal "sh" ∷ []) none_io
    ∷ []

merged-are_distinct_example :
    are_distinct (names (builtins json build ++ filter_collisions extras (builtins json build)))
    ≡ true
unfolding parse_extra_catalog parse_tools parse_argv parse_bin_io parse_argv_element inner
    before_close is_ident all_later contains
merged-are_distinct_example =
    merged-are_distinct json build (λ s. s) (λ v. v) (λ s. false)
      (λ s. inr (raw_count ∷ raw_shell ∷ [])) "[[tool]]" extras refl
