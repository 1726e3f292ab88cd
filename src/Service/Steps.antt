-- ===== src/Service/Steps.antt =====
-- The events of LLM and tool calls that src/service.rs records.
use lv_fixus.Common.{String, Bool, Option, some, ℕ, [], ◌∷◌, ◌++◌}
use lv_fixus.Common.Int.{ℤ, pos}
use lv_fixus.Json.{Json, Build, optional}
use lv_fixus.Models.EventType.{
  EventType, llm_invoked, llm_completed, llm_failed, tool_invoked, tool_completed, tool_failed,
}
use lv_fixus.Models.Failure.{FailureReason}
use lv_fixus.Models.Event
use lv_fixus.Models.Event.{AgentEvent}
use lv_fixus.Store.{EventStore, Action}
use lv_fixus.Service.{write_new, reason_member}

pub record Usage : Type 0 where
  pub prompt_tokens : ℤ
  pub completion_tokens : ℤ
  pub total_tokens : ℤ

-- the sequence number of the event is what comes back
unfoldable pub record_event :
    {V S : Type 0}
    → EventStore V S
    → ℕ
    → String
    → Option ℤ
    → Option String
    → EventType
    → V
    → Action S ℤ
record_event store now task_id turn_id step_id event_type payload =
    store.write_event (Event.new now task_id turn_id step_id event_type payload)

module _ (j : Json) (b : Build j) where
  open b use {object, string, int, boolean}

  abbrev pub usage_value : Usage → j.Value
  usage_value u = object (
      ("prompt_tokens", int u.prompt_tokens)
      ∷ ("completion_tokens", int u.completion_tokens)
      ∷ ("total_tokens", int u.total_tokens)
      ∷ [])

  abbrev pub llm_invoked_payload : String → j.Value → Option j.Value → Option j.Value → ℤ → j.Value
  llm_invoked_payload model messages tools temperature local_seq = object (
      ("step_type", string "llm_call")
      ∷ ("model", string model)
      ∷ ("messages", messages)
      ∷ ("local_seq", int local_seq)
      ∷ (optional "tools" (λ v. v) tools ++ optional "temperature" (λ v. v) temperature))

  abbrev pub llm_completed_payload :
      String → Option String → Option j.Value → Option Usage → Option String → ℤ → j.Value
  llm_completed_payload model content tool_calls usage finish_reason local_seq = object (
      ("model", string model)
      ∷ ("local_seq", int local_seq)
      ∷ (optional "content" string content
          ++ (optional "tool_calls" (λ v. v) tool_calls
              ++ (optional "usage" usage_value usage
                  ++ optional "finish_reason" string finish_reason))))

  abbrev pub llm_failed_payload : String → String → Option FailureReason → ℤ → ℤ → j.Value
  llm_failed_payload error_type error_message failure_reason attempt local_seq = object (
      ("error_type", string error_type)
      ∷ ("error_message", string error_message)
      ∷ ("attempt", int attempt)
      ∷ ("local_seq", int local_seq)
      ∷ reason_member j b failure_reason)

  abbrev pub tool_invoked_payload :
      String → String → String → j.Value → Option String → ℤ → Option String → Option ℕ → j.Value
  tool_invoked_payload tool_name tool_call_id key input parent_step_id local_seq work_dir
        timeout_ms =
      object (
        ("step_type", string "tool_call")
        ∷ ("tool_name", string tool_name)
        ∷ ("tool_call_id", string tool_call_id)
        ∷ ("idempotency_key", string key)
        ∷ ("input", input)
        ∷ ("local_seq", int local_seq)
        ∷ (optional "parent_step_id" string parent_step_id
            ++ (optional "work_dir" string work_dir
                ++ optional "timeout_ms" (λ n. int (pos n)) timeout_ms)))

  abbrev pub tool_failed_payload : String → String → String → Option FailureReason → ℤ → ℤ → j.Value
  tool_failed_payload tool_call_id error_type error_message failure_reason attempt local_seq =
      object (
        ("tool_call_id", string tool_call_id)
        ∷ ("error_type", string error_type)
        ∷ ("error_message", string error_message)
        ∷ ("attempt", int attempt)
        ∷ ("local_seq", int local_seq)
        ∷ reason_member j b failure_reason)

  module _ {S : Type 0} (store : EventStore j.Value S) (now : ℕ) (task_id : String) where
    unfoldable pub record_llm_invoked :
        Option ℤ
        → String
        → String
        → j.Value
        → Option j.Value
        → Option j.Value
        → ℤ
        → Action S (AgentEvent j.Value)
    record_llm_invoked turn_id step_id model messages tools temperature local_seq =
        write_new store (
          Event.new now task_id turn_id (some step_id) llm_invoked
            (llm_invoked_payload model messages tools temperature local_seq))

    unfoldable pub record_llm_completed :
        Option ℤ
        → String
        → String
        → Option String
        → Option j.Value
        → Option Usage
        → Option String
        → ℤ
        → Action S (AgentEvent j.Value)
    record_llm_completed turn_id step_id model content tool_calls usage finish_reason local_seq =
        write_new store (
          Event.new now task_id turn_id (some step_id) llm_completed
            (llm_completed_payload model content tool_calls usage finish_reason local_seq))

    unfoldable pub record_llm_failed :
        Option ℤ
        → String
        → String
        → String
        → Option FailureReason
        → ℤ
        → ℤ
        → Action S (AgentEvent j.Value)
    record_llm_failed turn_id step_id error_type error_message failure_reason attempt local_seq =
        write_new store (
          Event.new now task_id turn_id (some step_id) llm_failed
            (llm_failed_payload error_type error_message failure_reason attempt local_seq))

    unfoldable pub record_tool_invoked :
        Option ℤ
        → String
        → String
        → String
        → String
        → j.Value
        → Option String
        → ℤ
        → Option String
        → Option ℕ
        → Action S (AgentEvent j.Value)
    record_tool_invoked turn_id step_id tool_name tool_call_id key input parent local_seq dir tmo =
        write_new store (
          Event.new now task_id turn_id (some step_id) tool_invoked
            (tool_invoked_payload tool_name tool_call_id key input parent local_seq dir tmo))

    unfoldable pub record_tool_completed :
        Option ℤ → String → String → j.Value → Bool → ℤ → Action S (AgentEvent j.Value)
    record_tool_completed turn_id step_id tool_call_id output is_error local_seq = write_new store (
        Event.new now task_id turn_id (some step_id) tool_completed (
          object (
            ("tool_call_id", string tool_call_id)
            ∷ ("output", output)
            ∷ ("is_error", boolean is_error)
            ∷ ("local_seq", int local_seq)
            ∷ [])))

    unfoldable pub record_tool_failed :
        Option ℤ
        → String
        → String
        → String
        → String
        → Option FailureReason
        → ℤ
        → ℤ
        → Action S (AgentEvent j.Value)
    record_tool_failed turn_id step_id call_id error_type error_message failure_reason attempt seq =
        write_new store (
          Event.new now task_id turn_id (some step_id) tool_failed
            (tool_failed_payload call_id error_type error_message failure_reason attempt seq))
