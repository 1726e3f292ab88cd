-- ===== src/Fixlet.antt =====
-- The payloads that the fixlet reads and writes, src/bin/fixlet/router.rs, and its counter of local sequence
-- numbers, src/bin/fixlet/idempotency.rs.
pub mod Wire
use lv_fixus.Common.{
  String, Bool, Option, none, some, List, [], ◌∷◌, ◌⊎◌, inl, inr, map, unwrap_or, opt_bind,
  if◌then◌else◌, ◌||◌, ◌==◌, string_eq,
}
use lv_fixus.Common.Int.{ℤ, pos, add_i64, as_i32, int_eq}
use lv_fixus.Json.{Json, Build}
use lv_fixus.Models.Records.{Message}

pub record LocalSeqCounter : Type 0 where
  pub current : ℤ

abbrev pub new_counter : LocalSeqCounter
new_counter = record { current = pos 0 }

unfoldable pub next : LocalSeqCounter → LocalSeqCounter × ℤ
next c = (record { current = add_i64 c.current (pos 1) }, add_i64 c.current (pos 1))

unfoldable pub reset : LocalSeqCounter → LocalSeqCounter
reset c = record { current = pos 0 }

pub record ParsedExecuteTurn (V : Type 0) : Type 0 where
  pub task_id : String
  pub turn_id : ℤ
  pub user_input : String
  pub redo_group : String
  pub redo_count : ℤ
  pub summary : String
  pub messages : List Message
  pub effective_policy : Option V

-- `parse_messages` is `from_value` for a list of messages
module _ (j : Json) (parse_messages : j.Value → Option (List Message)) where
  abbrev text_at : Option j.Value → String
  text_at v = unwrap_or "" (opt_bind v j.as_str)

  abbrev number_at : Option j.Value → ℤ
  number_at v = unwrap_or (pos 0) (opt_bind v j.as_i64)

  abbrev within : Option j.Value → String → Option j.Value
  within v key = opt_bind v (λ x. j.get x key)

  unfoldable pub parse_execute_turn_payload : j.Value → String ⊎ ParsedExecuteTurn j.Value
  parse_execute_turn_payload p =
      if (text_at (j.get p "session_id") == "") || (number_at (j.get p "turn_id") == pos 0)
      then inl "missing session_id or turn_id"
      else inr (record {
        task_id = text_at (j.get p "session_id");
        turn_id = number_at (j.get p "turn_id");
        user_input = text_at (within (j.get p "input") "user_input");
        redo_group = text_at (j.get p "redo_group");
        redo_count = as_i32 (number_at (j.get p "redo_count"));
        summary = text_at (within (j.get p "context") "summary");
        messages =
            unwrap_or []
              (parse_messages (unwrap_or j.null (within (j.get p "context") "messages")));
        effective_policy = j.get p "effective_policy";
      })

module _ (j : Json) (b : Build j) where
  open b use {object, string, int, array}

  abbrev message_value : Message → j.Value
  message_value m = object (("role", string m.role) ∷ ("content", string m.content) ∷ [])

  unfoldable pub llm_invoked_payload : String → ℤ → String → String → List Message → ℤ → j.Value
  llm_invoked_payload task_id turn_id step_id model messages local_seq = object (
      ("task_id", string task_id)
      ∷ ("turn_id", int turn_id)
      ∷ ("step_id", string step_id)
      ∷ ("model", string model)
      ∷ ("messages", array (map message_value messages))
      ∷ ("local_seq", int local_seq)
      ∷ ("event_type", string "llm_invoked")
      ∷ [])

  unfoldable pub llm_completed_payload :
      String → ℤ → String → String → Option (ℤ × (ℤ × ℤ)) → ℤ → j.Value
  llm_completed_payload task_id turn_id step_id model usage local_seq =
      let (input_tokens, (output_tokens, total_tokens)) = unwrap_or (pos 0, (pos 0, pos 0)) usage in
      object (
        ("task_id", string task_id)
        ∷ ("turn_id", int turn_id)
        ∷ ("step_id", string step_id)
        ∷ ("model", string model)
        ∷ ("input_tokens", int input_tokens)
        ∷ ("output_tokens", int output_tokens)
        ∷ ("total_tokens", int total_tokens)
        ∷ ("local_seq", int local_seq)
        ∷ ("event_type", string "llm_completed")
        ∷ [])

  unfoldable pub llm_failed_payload : String → ℤ → String → String → String → ℤ → j.Value
  llm_failed_payload task_id turn_id step_id error_type error_message local_seq = object (
      ("task_id", string task_id)
      ∷ ("turn_id", int turn_id)
      ∷ ("step_id", string step_id)
      ∷ ("error_type", string error_type)
      ∷ ("error_message", string error_message)
      ∷ ("local_seq", int local_seq)
      ∷ ("event_type", string "llm_failed")
      ∷ [])
