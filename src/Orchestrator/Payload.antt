-- ===== src/Orchestrator/Payload.antt =====
-- What is published for a turn that begins: `build_turn_begin_payload` and the input with cached answers.
use Prim.Native.String.{◌++◌ as concat}
use lv_fixus.Common.{
  String, Option, none, some, ℕ, ◌+◌, List, [], ◌∷◌, map, if◌then◌else◌, ◌==◌, string_eq,
}
use lv_fixus.Common.Int.{ℤ}
use lv_fixus.Json.{Json, Build}
use lv_fixus.Models.Records.{Message}
use lv_fixus.Policy.{EffectivePolicy}
use lv_fixus.Orchestrator.{Texts}

module _ (j : Json) (b : Build j) (texts : Texts j.Value) where
  open b use {object, string, int, array}

  -- a property of a parameter: its type, and its description if it has one
  abbrev typed : String → String → String × j.Value
  typed name kind = (name, object (("type", string kind) ∷ []))

  abbrev described : String → String → String × j.Value
  described name text =
      (name, object (("type", string "string") ∷ ("description", string text) ∷ []))

  abbrev tool : String → String → List (String × j.Value) → List String → j.Value
  tool name description properties required = object (
      ("name", string name)
      ∷ ("description", string description)
      ∷ (
        "parameters",
        object (
            ("type", string "object")
            ∷ ("properties", object properties)
            ∷ ("required", array (map string required))
            ∷ []),
      )
      ∷ [])

  abbrev tools : List j.Value
  tools =
      tool "fixus_Bash" "Execute a shell command (via fixus sandbox)"
        (described "command" "The command to execute"
          ∷ described "description" "Brief description"
          ∷ [])
        ("command" ∷ [])
      ∷ tool "fixus_Read" "Read a file (via fixus sandbox)"
          (described "file_path" "Absolute path to the file"
            ∷ typed "offset" "integer"
            ∷ typed "limit" "integer"
            ∷ [])
          ("file_path" ∷ [])
      ∷ tool "fixus_Write" "Write to a file (via fixus sandbox)"
          (typed "file_path" "string" ∷ typed "content" "string" ∷ [])
          ("file_path" ∷ "content" ∷ [])
      ∷ tool "fixus_Edit" "Edit a file by replacing a string"
          (typed "file_path" "string"
            ∷ typed "old_string" "string"
            ∷ typed "new_string" "string"
            ∷ [])
          ("file_path" ∷ "old_string" ∷ "new_string" ∷ [])
      ∷ tool "fixus_Glob" "Find files matching a pattern" (typed "pattern" "string" ∷ [])
          ("pattern" ∷ [])
      ∷ tool "fixus_Grep" "Search for a pattern in files"
          (typed "pattern" "string" ∷ typed "path" "string" ∷ []) ("pattern" ∷ [])
      ∷ []

  abbrev pub message_value : Message → j.Value
  message_value m = object (("role", string m.role) ∷ ("content", string m.content) ∷ [])

  unfoldable pub build_turn_begin_payload :
      String → ℤ → String → String → List Message → String → ℤ → Option EffectivePolicy → j.Value
  build_turn_begin_payload task_id turn_id user_input summary messages redo_group redo_count
        policy =
      object (
        ("type", string "execute_turn")
        ∷ ("session_id", string task_id)
        ∷ ("turn_id", int turn_id)
        ∷ ("input", object (("user_input", string user_input) ∷ []))
        ∷ (
          "context",
          object
              (("summary", string summary) ∷ ("messages", array (map message_value messages)) ∷ []),
        )
        ∷ ("tools", array tools)
        ∷ ("redo_group", string redo_group)
        ∷ ("redo_count", int redo_count)
        ∷ ("effective_policy", elim policy [ none ↦ j.null | some p ↦ texts.policy p ])
        ∷ [])

  -- the loop over the cached answers, the first of which has the number `i`
  abbrev previous : ℕ → List String → String
  previous i [] = ""
  previous i (answer ∷ rest) =
      let more = previous (i + 1) rest in
      if answer == ""
      then more
      else concat "\nPrevious response "
          (concat (texts.usize i) (concat ": " (concat answer (concat "\n" more))))

  unfoldable pub input_with_cache : List String → String → String
  input_with_cache [] user_input = user_input
  input_with_cache (answer ∷ rest) user_input =
      concat "[CACHED FROM PREVIOUS ATTEMPT — reuse or adapt if applicable]\n"
        (concat (previous 1 (answer ∷ rest)) (concat "\n[END CACHE]\n\n" user_input))
