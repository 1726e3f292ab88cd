-- ===== src/Projection.antt =====
-- `TaskProjection` of src/projection.rs: what the events of a task add up to.
pub mod Apply
pub mod Queries
pub mod Cache
use lv_fixus.Common.{
  String, Bool, true, false, Option, none, some, ℕ, List, [], ◌∷◌, ◌++◌, if◌then◌else◌, string_eq,
}
use lv_fixus.Common.Int.{ℤ, pos, max_ℤ, as_i64, as_i32, add_i64, int_eq}
use lv_fixus.Common.Map.{Map, get, insert, remove, add, discard}
use lv_fixus.Json.{Json, at}
use lv_fixus.Error.{Result, ok, err, invalid_event_type}
use lv_fixus.Models.EventType
use lv_fixus.Models.EventType.{
  EventType, task_created, task_ready, task_claimed, task_blocked, task_succeeded, task_failed,
  task_canceled, turn_started, turn_completed, turn_failed, turn_canceled, turn_blocked,
  llm_invoked, llm_completed, llm_failed, tool_invoked, tool_completed, tool_failed, summary_marker,
  is_llm_completed,
}
use lv_fixus.Models.TaskState.{
  TaskState, created, ready, claimed, executing, blocked, succeeded, failed, canceled,
}
use lv_fixus.Models.Event.{AgentEvent}
use lv_fixus.Models.Guard.{may_start}
use lv_fixus.Models.Records.{Provenance}
use lv_fixus.Models.Tokens.{TokenUsageStats}
use lv_fixus.Policy.{EffectivePolicy}

-- What the projection reads of an event's bytes through crates that it only calls: `from_slice` and
-- `from_value` of serde_json, `parse::<i64>` of the standard library.
pub record Decoders (j : Json) (Content : Type 0) : Type 0 where
  pub from_slice : Content → Option j.Value
  pub provenance : j.Value → Option Provenance
  pub effective_policy : j.Value → Option EffectivePolicy
  pub parse_i64 : String → Option ℤ

-- a completed step: (start_seq, start_event, terminal_type, terminal_seq)
abbrev pub CompletedStep : Type 0 → Type 0
CompletedStep V = ℤ × AgentEvent V × String × ℤ

pub record TaskProjection (V : Type 0) : Type 0 where
  pub task_id : String
  pub task_type : String
  pub provenance : Provenance
  pub body : Option V
  pub priority : ℤ  -- i32
  pub effective_policy : Option EffectivePolicy
  pub state : TaskState
  pub max_seq : ℤ
  pub max_turn_id : ℤ
  pub by_seq : Map ℤ (AgentEvent V)
  pub by_turn_id : Map ℤ (List ℤ)
  pub active_turns : List ℤ
  pub active_steps : Map String (ℤ × AgentEvent V)
  pub completed_steps : Map String (CompletedStep V)
  pub latest_summary : Option V
  pub summarized_up_to_seq : ℤ
  pub summarized_up_to_turn_id : ℤ
  pub token_stats : Map String TokenUsageStats
  pub recent_turn_ids : List ℤ  -- the front first

unfoldable pub new : {V : Type 0} → ℕ → String → TaskProjection V
new now task_id = record {
  task_id = task_id;
  task_type = "";
  provenance = record {
    source_channel = "";
    source_session_id = none;
    source_user_id = none;
    source_tenant_id = none;
    source_message_id = none;
    created_at = now;
    created_by = "";
  };
  body = none;
  priority = pos 0;
  effective_policy = none;
  state = created;
  max_seq = pos 0;
  max_turn_id = pos 0;
  by_seq = [];
  by_turn_id = [];
  active_turns = [];
  active_steps = [];
  completed_steps = [];
  latest_summary = none;
  summarized_up_to_seq = pos 0;
  summarized_up_to_turn_id = pos 0;
  token_stats = [];
  recent_turn_ids = [];
}
