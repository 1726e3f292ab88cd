-- ===== src/ToolCatalog.antt =====
-- crates/tool-catalog/src/lib.rs: the tools, how their command lines are written and read, and how the tools
-- of an operator join the built-in ones. A `Result` is a sum with the error on the left.
pub mod Builtins
pub mod Argv
pub mod Toml
pub mod Extras
pub mod Rendered
pub mod Template
pub mod Names
use lv_fixus.Common.{
  String, Bool, true, false, not, Option, none, some, ℕ, List, [], ◌∷◌, ◌++◌, ◌⊎◌, inl, inr, map,
  filter, find, ◌==◌, string_eq,
}
use lv_fixus.Common.Map.{contains}

pub record ToolDef (V : Type 0) : Type 0 where
  pub name : String
  pub description : String
  pub input_schema : V

pub data BinIo : Type 0 where
  read write none_io : BinIo

pub data ArgvPart : Type 0 where
  literal arg : String → ArgvPart
  flag : String → String → ArgvPart

pub record BinSpec : Type 0 where
  pub binary : String
  pub argv : List ArgvPart
  pub io : BinIo
  pub path_args : List String

pub data ExecutorKind : Type 0 where
  bash file_read file_write file_edit glob grep : ExecutorKind
  bin : BinSpec → ExecutorKind

pub record ToolSpec (V : Type 0) : Type 0 where
  pub name : String
  pub description : String
  pub input_schema : V
  pub default_timeout_secs : ℕ
  pub executor : ExecutorKind

pub data CatalogError : Type 0 where
  malformed duplicate_name unknown_placeholder : String → CatalogError

pub data RenderError : Type 0 where
  missing_arg arg_type_mismatch : String → RenderError

-- What a JSON value is; a number comes with its text.
pub data Shape : Type 0 where
  null : Shape
  text number : String → Shape
  boolean : Bool → Shape
  compound : Shape

abbrev pub find_tool : {V : Type 0} → List (ToolSpec V) → String → Option (ToolSpec V)
find_tool all full_name = find (λ s. s.name == full_name) all

-- `ToolDef::from(&spec)`
abbrev pub to_def : {V : Type 0} → ToolSpec V → ToolDef V
to_def s = record { name = s.name; description = s.description; input_schema = s.input_schema }

-- `args.get(name)`, and null where there is none
module _ (args : String → Shape) where
  abbrev pub arg_piece : String → Shape → RenderError ⊎ List String
  arg_piece name null = inl (missing_arg name)
  arg_piece name (text s) = inr (s ∷ [])
  arg_piece name (number s) = inr (s ∷ [])
  arg_piece name (boolean true) = inr ("true" ∷ [])
  arg_piece name (boolean false) = inr ("false" ∷ [])
  arg_piece name compound = inl (arg_type_mismatch name)

  abbrev pub flag_piece : String → String → Shape → RenderError ⊎ List String
  flag_piece name value null = inr []
  flag_piece name value (boolean true) = inr (value ∷ [])
  flag_piece name value (boolean false) = inr []
  flag_piece name value _ = inl (arg_type_mismatch name)

  -- what one part pushes
  unfoldable pub render_part : ArgvPart → RenderError ⊎ List String
  render_part (literal s) = inr (s ∷ [])
  render_part (arg name) = arg_piece name (args name)
  render_part (flag name value) = flag_piece name value (args name)

  abbrev pub pushed : List String → RenderError ⊎ List String → RenderError ⊎ List String
  pushed out (inl e) = inl e
  pushed out (inr piece) = inr (out ++ piece)

  -- the loop; `out` is the vector that it pushes to
  unfoldable pub render_parts : List String → List ArgvPart → RenderError ⊎ List String
  render_parts out [] = inr out
  render_parts out (p ∷ ps) = elim (render_part p) [
    | inl e ↦ inl e
    | inr piece ↦ render_parts (out ++ piece) ps
  ]

  unfoldable pub render_argv : List ArgvPart → RenderError ⊎ List String
  render_argv parts = render_parts [] parts

abbrev pub names : {V : Type 0} → List (ToolSpec V) → List String
names specs = map (λ s. s.name) specs

unfoldable pub filter_collisions :
    {V : Type 0} → List (ToolSpec V) → List (ToolSpec V) → List (ToolSpec V)
filter_collisions extras reserved = filter (λ e. not (contains e.name (names reserved))) extras
