-- ===== src/Orchestrator/Steps.antt =====
-- The handlers of step events and the records of the stream `task-end`, src/orchestrator.rs. Each handler
-- writes one event.
use lv_fixus.Common.{
  String, Bool, false, Option, none, some, List, [], ◌∷◌, ◌||◌, map, unwrap_or, opt_bind,
  if◌then◌else◌, ◌==◌, string_eq,
}
use lv_fixus.Common.Int.{ℤ, pos, int_eq}
use lv_fixus.Common.Literal.{match_str}
use lv_fixus.Json.{at}
use lv_fixus.Context.{i64_at}
use lv_fixus.Models.EventType.{llm_completed}
use lv_fixus.Models.Records.{Message}
use lv_fixus.Service.Steps.{
  usage_value, record_event, record_llm_invoked, record_llm_failed, record_tool_invoked,
  record_tool_completed, record_tool_failed,
}
use lv_fixus.Store.{Action, return, ◌>>=◌}
use lv_fixus.Orchestrator.{Env, Orchestrator, lift, attempt, resolve_task_type}
use lv_fixus.Orchestrator.Payload.{message_value}
use lv_fixus.Orchestrator.Ends.{handle_turn_execution_done, handle_turn_execution_error}

-- What the consumer reads of values besides texts and numbers; `parse_messages` is `from_value`.
pub record Readings (V : Type 0) : Type 0 where
  pub as_bool : V → Option Bool
  pub parse_messages : V → Option (List Message)

pub record TaskEnd (V : Type 0) : Type 0 where
  pub event_type : String
  pub payload : V

module _ (E : Env) where
  open E use {j, b, render, S, store, now}
  open b use {object, string, int, array}

  abbrev O : Type 0
  O = Orchestrator S

  unfoldable pub handle_llm_completed :
      String → ℤ → String → String → ℤ → ℤ → ℤ → ℤ → Action O (Unit {0})
  handle_llm_completed task_id turn_id step_id model input_tokens output_tokens total_tokens
        local_seq =
      do
        seq ← lift (
            record_event store now task_id (some turn_id) (some step_id) llm_completed (
              object (
                ("model", string model)
                ∷ (
                  "usage",
                  usage_value j b (record {
                    prompt_tokens = input_tokens;
                    completion_tokens = output_tokens;
                    total_tokens = total_tokens;
                  }),
                )
                ∷ ("local_seq", int local_seq)
                ∷ [])))
        resolved ← attempt (resolve_task_type E task_id)
        return tt

  unfoldable pub handle_tool_invoked :
      String → Option ℤ → String → String → String → String → j.Value → ℤ → Action O (Unit {0})
  handle_tool_invoked task_id turn_id step_id tool_name tool_call_id key input local_seq = do
    event ← lift (
        record_tool_invoked j b store now task_id turn_id step_id tool_name tool_call_id key input
          none local_seq none none)
    return tt

  unfoldable pub handle_tool_completed :
      String → Option ℤ → String → String → j.Value → Bool → ℤ → Action O (Unit {0})
  handle_tool_completed task_id turn_id step_id tool_call_id output is_error local_seq = do
    event ← lift (
        record_tool_completed j b store now task_id turn_id step_id tool_call_id output is_error
          local_seq)
    return tt

  unfoldable pub handle_tool_failed :
      String → Option ℤ → String → String → String → String → ℤ → Action O (Unit {0})
  handle_tool_failed task_id turn_id step_id tool_call_id error_type error_message local_seq = do
    event ← lift (
        record_tool_failed j b store now task_id turn_id step_id tool_call_id error_type
          error_message none (pos 0) local_seq)
    return tt

  unfoldable pub handle_llm_invoked :
      String → Option ℤ → String → String → List Message → ℤ → Action O (Unit {0})
  handle_llm_invoked task_id turn_id step_id model messages local_seq = do
    event ← lift (
        record_llm_invoked j b store now task_id turn_id step_id model
          (array (map (message_value j b E.texts) messages)) none none local_seq)
    return tt

  unfoldable pub handle_llm_failed :
      String → Option ℤ → String → String → String → ℤ → Action O (Unit {0})
  handle_llm_failed task_id turn_id step_id error_type error_message local_seq = do
    event ← lift (
        record_llm_failed j b store now task_id turn_id step_id error_type error_message none
          (pos 0) local_seq)
    return tt

  -- `payload[key].as_str().unwrap_or(default)`, and the same for `as_i64` with 0
  abbrev pub text : j.Value → String → String → String
  text payload key default = unwrap_or default (j.as_str (at j payload key))

  abbrev pub number : j.Value → String → ℤ
  number payload key = unwrap_or (pos 0) (j.as_i64 (at j payload key))

  -- `payload.get(key).and_then(as_i64).unwrap_or(0)`
  abbrev counter : j.Value → String → ℤ
  counter payload key = unwrap_or (pos 0) (i64_at j render payload key)

  -- `payload.get(key).unwrap_or(&null)`
  abbrev member : j.Value → String → j.Value
  member payload key = unwrap_or j.null (j.get payload key)

  abbrev skip : Action O (Unit {0})
  skip = return tt

  module _ (r : Readings j.Value) where
    abbrev messages_in : j.Value → List Message
    messages_in payload = unwrap_or [] (opt_bind (j.get payload "messages") r.parse_messages)

    -- the arms of the match on `rec.event_type`, for a record that names a task
    abbrev pub handlers : String → j.Value → List (String × Action O (Unit {0}))
    handlers task_id p =
        (
          "turn_execution_done",
          if number p "turn_id" == pos 0
              then skip
              else handle_turn_execution_done E task_id (number p "turn_id")
                  (text p "final_output" ""),
        )
        ∷ (
          "llm_completed",
          if (number p "turn_id" == pos 0) || (text p "step_id" "" == "")
              then skip
              else handle_llm_completed task_id (number p "turn_id") (text p "step_id" "")
                  (text p "model" "") (counter p "input_tokens") (counter p "output_tokens")
                  (counter p "total_tokens") (counter p "local_seq"),
        )
        ∷ (
          "turn_execution_error",
          if number p "turn_id" == pos 0
              then skip
              else handle_turn_execution_error E task_id (number p "turn_id")
                  (text p "error_type" "unknown") (text p "error_message" ""),
        )
        ∷ (
          "tool_invoked",
          if text p "step_id" "" == ""
              then skip
              else handle_tool_invoked task_id (i64_at j render p "turn_id") (text p "step_id" "")
                  (text p "tool_name" "") (text p "tool_call_id" "") (text p "idempotency_key" "")
                  (member p "input") (counter p "local_seq"),
        )
        ∷ (
          "tool_completed",
          if text p "step_id" "" == ""
              then skip
              else handle_tool_completed task_id (i64_at j render p "turn_id") (text p "step_id" "")
                  (text p "tool_call_id" "") (member p "output")
                  (unwrap_or false (opt_bind (j.get p "is_error") r.as_bool))
                  (counter p "local_seq"),
        )
        ∷ (
          "tool_failed",
          if text p "step_id" "" == ""
              then skip
              else handle_tool_failed task_id (i64_at j render p "turn_id") (text p "step_id" "")
                  (text p "tool_call_id" "") (text p "error_type" "unknown")
                  (text p "error_message" "") (counter p "local_seq"),
        )
        ∷ (
          "llm_invoked",
          if text p "step_id" "" == ""
              then skip
              else handle_llm_invoked task_id (i64_at j render p "turn_id") (text p "step_id" "")
                  (text p "model" "") (messages_in p) (counter p "local_seq"),
        )
        ∷ (
          "llm_failed",
          if text p "step_id" "" == ""
              then skip
              else handle_llm_failed task_id (i64_at j render p "turn_id") (text p "step_id" "")
                  (text p "error_type" "unknown") (text p "error_message" "")
                  (counter p "local_seq"),
        )
        ∷ []

    abbrev pub handle_event : String → String → j.Value → Action O (Unit {0})
    handle_event event_type task_id p = unwrap_or skip (match_str (handlers task_id p) event_type)

    -- one record of `task-end`: an error of its handler is dropped
    unfoldable pub handle_record : TaskEnd j.Value → O → O
    handle_record rec o =
        let task_id = text rec.payload "task_id" "" in
        let handled = handle_event rec.event_type task_id rec.payload o in
        if task_id == "" then o else handled.0

    -- the records in the order in which they come
    unfoldable pub run_lifecycle_consumer : List (TaskEnd j.Value) → O → O
    run_lifecycle_consumer [] o = o
    run_lifecycle_consumer (rec ∷ recs) o = run_lifecycle_consumer recs (handle_record rec o)
