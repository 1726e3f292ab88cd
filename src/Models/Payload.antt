-- ===== src/Models/Payload.antt =====
-- `validate_payload_required_fields` of src/models.rs, over the interface to JSON values.
pub mod Fields
use lv_fixus.Common.{String, Bool, true, false, Option, none, some, List, [], ◌∷◌, if◌then◌else◌}
use lv_fixus.Models.EventType.{
  EventType, llm_invoked, llm_completed, tool_invoked, summary_marker, is_llm_completed,
}
use lv_fixus.Error.{AppError, payload_validation, Result, ok, err, ◌>>=◌, ◌>>◌}
use lv_fixus.Json.{Json}

abbrev pub llm_invoked_fields : List String
llm_invoked_fields = "model" ∷ "messages" ∷ "local_seq" ∷ []

abbrev pub llm_completed_fields : List String
llm_completed_fields = "model" ∷ "local_seq" ∷ []

abbrev pub tool_invoked_fields : List String
tool_invoked_fields = "tool_name" ∷ "tool_call_id" ∷ "idempotency_key" ∷ "local_seq" ∷ []

abbrev pub summary_marker_fields : List String
summary_marker_fields = "summarized_up_to_seq" ∷ "summarized_up_to_turn_id" ∷ "summary" ∷ []

-- the required fields; `none` for an event type that is not checked
unfoldable pub required : EventType → Option (List String)
required llm_invoked = some llm_invoked_fields
required llm_completed = some llm_completed_fields
required tool_invoked = some tool_invoked_fields
required summary_marker = some summary_marker_fields
required _ = none

-- the sub-fields of `usage`, each with the name that an error reports
abbrev pub usage_fields : List (String × String)
usage_fields =
    ("prompt_tokens", "usage.prompt_tokens") ∷ ("completion_tokens", "usage.completion_tokens") ∷ []

module _ (j : Json) where
  open j use {Value, get, is_null}

  abbrev pub absent : Value → String → Bool
  absent v field = elim (get v field) [ none ↦ true | some w ↦ is_null w ]

  -- the loop over the required fields
  unfoldable pub check_fields : EventType → Value → List String → Result (Unit {0})
  check_fields e v [] = ok tt
  check_fields e v (field ∷ rest) =
      if absent v field then err (payload_validation e field) else check_fields e v rest

  unfoldable pub check_usage : EventType → Value → List (String × String) → Result (Unit {0})
  check_usage e u [] = ok tt
  check_usage e u ((field, name) ∷ rest) =
      if absent u field then err (payload_validation e name) else check_usage e u rest

  abbrev pub usage_of : EventType → Option Value → Result (Unit {0})
  usage_of e none = ok tt
  usage_of e (some u) = check_usage e u usage_fields

  abbrev check_required : EventType → Value → Option (List String) → Result (Unit {0})
  check_required e v none = ok tt
  check_required e v (some fields) = do
    check_fields e v fields
    if is_llm_completed e then usage_of e (get v "usage") else ok tt

  unfoldable pub validate_payload_required_fields : EventType → Value → Result (Unit {0})
  unfolding required check_fields check_usage
  validate_payload_required_fields e v = check_required e v (required e)
