-- ===== src/ToolCatalog/Builtins.antt =====
-- The built-in tools, crates/tool-catalog/src/lib.rs.
use lv_fixus.Common.{String, ℕ, List, [], ◌∷◌, map}
use lv_fixus.Json.{Json, Build}
use lv_fixus.ToolCatalog.{
  ToolSpec, ExecutorKind, bash, file_read, file_write, file_edit, glob, grep, bin, literal, arg,
  flag, read,
}

module _ (j : Json) (b : Build j) where
  open b use {object, string, array}

  abbrev typed : String → String → String × j.Value
  typed name kind = (name, object (("type", string kind) ∷ []))

  abbrev described : String → String → String → String × j.Value
  described name kind text =
      (name, object (("type", string kind) ∷ ("description", string text) ∷ []))

  abbrev spec :
      String → String → List (String × j.Value) → List String → ℕ → ExecutorKind → ToolSpec j.Value
  spec name description properties required timeout executor = record {
    name = name;
    description = description;
    input_schema = object (
        ("type", string "object")
        ∷ ("properties", object properties)
        ∷ ("required", array (map string required))
        ∷ []);
    default_timeout_secs = timeout;
    executor = executor;
  }

  unfoldable pub builtins : List (ToolSpec j.Value)
  builtins =
      spec "fixus_bash" "Execute a shell command (via fixus sandbox)"
        (described "command" "string" "The command to execute"
          ∷ described "description" "string" "Brief description"
          ∷ [])
        ("command" ∷ []) 30 bash
      ∷ spec "fixus_read" "Read a file (via fixus sandbox)"
          (described "file_path" "string" "Path to file (relative or absolute, scoped to workspace)"
            ∷ described "offset" "integer" "Line number to start reading from"
            ∷ described "limit" "integer" "Number of lines to read"
            ∷ [])
          ("file_path" ∷ []) 15 file_read
      ∷ spec "fixus_write" "Write to a file (via fixus sandbox)"
          (described "file_path" "string" "Path to file (relative or absolute, scoped to workspace)"
            ∷ described "content" "string" "Content to write"
            ∷ [])
          ("file_path" ∷ "content" ∷ []) 15 file_write
      ∷ spec "fixus_edit" "Edit a file by replacing a string (via fixus sandbox)"
          (described "file_path" "string" "Path to file (relative or absolute, scoped to workspace)"
            ∷ described "old_string" "string" "String to replace"
            ∷ described "new_string" "string" "Replacement string"
            ∷ [])
          ("file_path" ∷ "old_string" ∷ "new_string" ∷ []) 15 file_edit
      ∷ spec "fixus_glob" "Find files matching a pattern (via fixus sandbox)"
          (described "pattern" "string" "Glob pattern (e.g. *.rs)" ∷ []) ("pattern" ∷ []) 15 glob
      ∷ spec "fixus_grep" "Search for a pattern in files (via fixus sandbox)"
          (described "pattern" "string" "Pattern to search for"
            ∷ described "path" "string" "Directory or file to search in"
            ∷ [])
          ("pattern" ∷ []) 15 grep
      ∷ spec "fixus_jq" "Run jq (JSON query) on a file"
          (typed "filter" "string" ∷ typed "file" "string" ∷ typed "raw" "boolean" ∷ [])
          ("filter" ∷ "file" ∷ []) 15
          (bin (record {
            binary = "jq";
            argv = literal "jq" ∷ flag "raw" "-r" ∷ arg "filter" ∷ arg "file" ∷ [];
            io = read;
            path_args = "file" ∷ [];
          }))
      ∷ spec "fixus_rg" "Recursively search file contents (ripgrep)"
          (typed "pattern" "string" ∷ typed "path" "string" ∷ []) ("pattern" ∷ []) 15
          (bin (record {
            binary = "rg";
            argv = literal "rg" ∷ arg "pattern" ∷ arg "path" ∷ [];
            io = read;
            path_args = "path" ∷ [];
          }))
      ∷ []
