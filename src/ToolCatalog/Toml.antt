-- ===== src/ToolCatalog/Toml.antt =====
-- `toml_to_json` of crates/tool-catalog/src/lib.rs. The values are those of the TOML library: `F` is its
-- floating-point numbers and `D` its dates.
use lv_fixus.Common.{String, Bool, Option, none, some, List, [], ◌∷◌}
use lv_fixus.Common.Int.{ℤ}
use lv_fixus.Json.{Json, Build}

mutual
  pub data TomlValue (F D : Type 0) : Type 0 where
    string : String → TomlValue F D
    integer : ℤ → TomlValue F D
    float : F → TomlValue F D
    boolean : Bool → TomlValue F D
    array : TomlList F D → TomlValue F D
    table : TomlTable F D → TomlValue F D
    datetime : D → TomlValue F D

  pub data TomlList (F D : Type 0) : Type 0 where
    nil : TomlList F D
    item : TomlValue F D → TomlList F D → TomlList F D

  pub data TomlTable (F D : Type 0) : Type 0 where
    end : TomlTable F D
    entry : String → TomlValue F D → TomlTable F D → TomlTable F D

-- `from_f64` has no number for NaN and infinity; `display` prints a date
module _ (j : Json) (b : Build j) {F D : Type 0} (from_f64 : F → Option j.Value)
    (display : D → String) where
  mutual
    pub toml_to_json : TomlValue F D → j.Value
    toml_to_json (string s) = b.string s
    toml_to_json (integer i) = b.int i
    toml_to_json (float f) = elim (from_f64 f) [ none ↦ j.null | some v ↦ v ]
    toml_to_json (boolean x) = b.boolean x
    toml_to_json (array vs) = b.array (list_to_json vs)
    toml_to_json (table t) = b.object (table_to_json t)
    toml_to_json (datetime d) = b.string (display d)

    pub list_to_json : TomlList F D → List j.Value
    list_to_json nil = []
    list_to_json (item v vs) = toml_to_json v ∷ list_to_json vs

    pub table_to_json : TomlTable F D → List (String × j.Value)
    table_to_json end = []
    table_to_json (entry k v t) = (k, toml_to_json v) ∷ table_to_json t
