-- ===== src/ToolCatalog/Extras.antt =====
-- The tools of an operator's TOML file, crates/tool-catalog/src/lib.rs. The parser of the TOML library and
-- the trimming of text are parameters; a field with a default is optional in the raw entry.
use Prim.Native.String.{◌++◌ as concat}
use lv_fixus.Common.{
  String, Bool, true, false, Option, none, some, ℕ, List, [], ◌∷◌, ◌++◌, ◌⊎◌, inl, inr,
  if◌then◌else◌, unwrap_or, string_eq,
}
use lv_fixus.Common.Literal.{match_str}
use lv_fixus.Common.Map.{contains}
use lv_fixus.ToolCatalog.{
  ToolSpec, BinIo, read, write, none_io, ArgvPart, bin, CatalogError, malformed, duplicate_name,
}
use lv_fixus.ToolCatalog.Argv.{parse_argv_element}

pub record ExtraToolRaw (T : Type 0) : Type 0 where
  pub name : String
  pub description : String
  pub binary : String
  pub argv : List String
  pub io : Option String
  pub path_args : Option (List String)
  pub timeout_secs : Option ℕ
  pub input_schema : T

abbrev pub default_io : String
default_io = "none"

abbrev pub default_timeout : ℕ
default_timeout = 30

abbrev pub io_or_error : String → Option BinIo → CatalogError ⊎ BinIo
io_or_error message none = inl (malformed message)
io_or_error message (some io) = inr io

-- `debug` quotes a text
unfoldable pub parse_bin_io : (String → String) → String → CatalogError ⊎ BinIo
parse_bin_io debug s =
    io_or_error
      (concat "unknown io value: " (concat (debug s) " (expected \"read\" | \"write\" | \"none\")"))
      (match_str (("read", read) ∷ ("write", write) ∷ ("none", none_io) ∷ []) s)

-- the loop over the elements; `parts` is the vector that it pushes to
unfoldable pub parse_argv : List ArgvPart → List String → CatalogError ⊎ List ArgvPart
parse_argv parts [] = inr parts
parse_argv parts (s ∷ ss) = elim (parse_argv_element s) [
  | inl e ↦ inl e
  | inr p ↦ parse_argv (parts ++ (p ∷ [])) ss
]

module _ {T V : Type 0} (debug : String → String) (to_json : T → V) where
  abbrev pub bin_tool : ExtraToolRaw T → List ArgvPart → BinIo → ToolSpec V
  bin_tool raw argv io = record {
    name = raw.name;
    description = raw.description;
    input_schema = to_json raw.input_schema;
    default_timeout_secs = unwrap_or default_timeout raw.timeout_secs;
    executor = bin (record {
      binary = raw.binary;
      argv = argv;
      io = io;
      path_args = unwrap_or [] raw.path_args;
    });
  }

  abbrev pub tool_with_io :
      ExtraToolRaw T → List ArgvPart → CatalogError ⊎ BinIo → CatalogError ⊎ ToolSpec V
  tool_with_io raw argv (inl e) = inl e
  tool_with_io raw argv (inr io) = inr (bin_tool raw argv io)

  abbrev pub tool_with_argv :
      ExtraToolRaw T → CatalogError ⊎ List ArgvPart → CatalogError ⊎ ToolSpec V
  tool_with_argv raw (inl e) = inl e
  tool_with_argv raw (inr argv) =
      tool_with_io raw argv (parse_bin_io debug (unwrap_or default_io raw.io))

  -- one entry, whose name is new
  abbrev pub tool_of : ExtraToolRaw T → List String → CatalogError ⊎ ToolSpec V
  tool_of raw [] = inl (
      malformed (
        concat "tool "
          (concat raw.name " has empty argv (need at least the binary name as argv[0])")))
  tool_of raw (s ∷ ss) = tool_with_argv raw (parse_argv [] (s ∷ ss))

  -- the loop over the entries; `seen` is the set of names, `specs` the vector that it pushes to
  unfoldable pub parse_tools :
      List String → List (ToolSpec V) → List (ExtraToolRaw T) → CatalogError ⊎ List (ToolSpec V)
  parse_tools seen specs [] = inr specs
  parse_tools seen specs (raw ∷ raws) = elim (contains raw.name seen) [
    | true ↦ inl (duplicate_name raw.name)
    | false ↦ elim (tool_of raw raw.argv) [
      | inl e ↦ inl e
      | inr spec ↦ parse_tools (raw.name ∷ seen) (specs ++ (spec ∷ [])) raws
    ]
  ]

  abbrev pub tools_of : String ⊎ List (ExtraToolRaw T) → CatalogError ⊎ List (ToolSpec V)
  tools_of (inl e) = inl (malformed e)
  tools_of (inr raws) = parse_tools [] [] raws

  -- `is_blank` is `trim().is_empty()`, and `from_str` the parser, which prints its error
  unfoldable pub parse_extra_catalog :
      (String → Bool)
      → (String → String ⊎ List (ExtraToolRaw T))
      → String
      → CatalogError ⊎ List (ToolSpec V)
  parse_extra_catalog is_blank from_str toml_str =
      if is_blank toml_str then inr [] else tools_of (from_str toml_str)
