-- ===== src/Models/EventType.antt =====
-- `EventType` of src/models.rs: the 22 kinds of event, their names and their levels.
pub mod Names
pub mod Levels
use lv_fixus.Common.{String, Bool, true, false, Option, List, [], ◌∷◌, if◌then◌else◌}
use lv_fixus.Common.Literal.{match_str}

pub data EventType : Type 0 where
  session_started session_ended summary_marker : EventType
  task_created task_ready task_claimed task_blocked task_succeeded task_failed : EventType
  task_canceled : EventType
  turn_pending turn_started turn_completed turn_failed turn_canceled turn_blocked : EventType
  llm_invoked llm_completed llm_failed : EventType
  tool_invoked tool_completed tool_failed : EventType

-- `e == EventType::TurnStarted`
abbrev pub is_turn_started : EventType → Bool
is_turn_started turn_started = true
is_turn_started _ = false

-- `e == EventType::LlmCompleted`
abbrev pub is_llm_completed : EventType → Bool
is_llm_completed llm_completed = true
is_llm_completed _ = false

-- `e == EventType::TaskCreated`
abbrev pub is_task_created : EventType → Bool
is_task_created task_created = true
is_task_created _ = false

-- the arms of `from_str`
abbrev pub event_arms : List (String × EventType)
event_arms =
    ("session_started", session_started)
    ∷ ("session_ended", session_ended)
    ∷ ("summary_marker", summary_marker)
    ∷ ("task_created", task_created)
    ∷ ("task_ready", task_ready)
    ∷ ("task_claimed", task_claimed)
    ∷ ("task_blocked", task_blocked)
    ∷ ("task_succeeded", task_succeeded)
    ∷ ("task_failed", task_failed)
    ∷ ("task_canceled", task_canceled)
    ∷ ("turn_pending", turn_pending)
    ∷ ("turn_started", turn_started)
    ∷ ("turn_completed", turn_completed)
    ∷ ("turn_failed", turn_failed)
    ∷ ("turn_canceled", turn_canceled)
    ∷ ("turn_blocked", turn_blocked)
    ∷ ("llm_invoked", llm_invoked)
    ∷ ("llm_completed", llm_completed)
    ∷ ("llm_failed", llm_failed)
    ∷ ("tool_invoked", tool_invoked)
    ∷ ("tool_completed", tool_completed)
    ∷ ("tool_failed", tool_failed)
    ∷ []

unfoldable pub from_str : String → Option EventType
from_str s = match_str event_arms s

unfoldable pub as_str : EventType → String
as_str session_started = "session_started"
as_str session_ended = "session_ended"
as_str summary_marker = "summary_marker"
as_str task_created = "task_created"
as_str task_ready = "task_ready"
as_str task_claimed = "task_claimed"
as_str task_blocked = "task_blocked"
as_str task_succeeded = "task_succeeded"
as_str task_failed = "task_failed"
as_str task_canceled = "task_canceled"
as_str turn_pending = "turn_pending"
as_str turn_started = "turn_started"
as_str turn_completed = "turn_completed"
as_str turn_failed = "turn_failed"
as_str turn_canceled = "turn_canceled"
as_str turn_blocked = "turn_blocked"
as_str llm_invoked = "llm_invoked"
as_str llm_completed = "llm_completed"
as_str llm_failed = "llm_failed"
as_str tool_invoked = "tool_invoked"
as_str tool_completed = "tool_completed"
as_str tool_failed = "tool_failed"

unfoldable pub all_str_variants : List String
all_str_variants =
    "session_started" ∷ "session_ended" ∷ "summary_marker" ∷ "task_created" ∷ "task_ready"
    ∷ "task_claimed" ∷ "task_blocked" ∷ "task_succeeded" ∷ "task_failed" ∷ "task_canceled"
    ∷ "turn_pending" ∷ "turn_started" ∷ "turn_completed" ∷ "turn_failed" ∷ "turn_canceled"
    ∷ "turn_blocked" ∷ "llm_invoked" ∷ "llm_completed" ∷ "llm_failed" ∷ "tool_invoked"
    ∷ "tool_completed" ∷ "tool_failed" ∷ []

unfoldable pub is_task_level : EventType → Bool
is_task_level task_created = true
is_task_level task_ready = true
is_task_level task_claimed = true
is_task_level task_blocked = true
is_task_level task_succeeded = true
is_task_level task_failed = true
is_task_level task_canceled = true
is_task_level _ = false

unfoldable pub is_session_level : EventType → Bool
is_session_level session_started = true
is_session_level session_ended = true
is_session_level summary_marker = true
is_session_level _ = false

unfoldable pub is_turn_level : EventType → Bool
is_turn_level turn_pending = true
is_turn_level turn_started = true
is_turn_level turn_completed = true
is_turn_level turn_failed = true
is_turn_level turn_canceled = true
is_turn_level turn_blocked = true
is_turn_level _ = false

unfoldable pub is_step_level : EventType → Bool
is_step_level llm_invoked = true
is_step_level llm_completed = true
is_step_level llm_failed = true
is_step_level tool_invoked = true
is_step_level tool_completed = true
is_step_level tool_failed = true
is_step_level _ = false

unfoldable pub is_step_start : EventType → Bool
is_step_start llm_invoked = true
is_step_start tool_invoked = true
is_step_start _ = false

unfoldable pub is_step_terminal : EventType → Bool
is_step_terminal llm_completed = true
is_step_terminal llm_failed = true
is_step_terminal tool_completed = true
is_step_terminal tool_failed = true
is_step_terminal _ = false

unfoldable pub is_turn_terminal : EventType → Bool
is_turn_terminal turn_completed = true
is_turn_terminal turn_failed = true
is_turn_terminal turn_canceled = true
is_turn_terminal turn_blocked = true
is_turn_terminal _ = false

unfoldable pub is_turn_skip_on_recovery : EventType → Bool
is_turn_skip_on_recovery turn_pending = true
is_turn_skip_on_recovery turn_canceled = true
is_turn_skip_on_recovery turn_blocked = true
is_turn_skip_on_recovery _ = false

pub data EventScope : Type 0 where
  task session turn step : EventScope

unfoldable pub scope : EventType → EventScope
unfolding is_task_level is_session_level is_turn_level
scope e =
    if is_task_level e
    then task
    else if is_session_level e
    then session
    else if is_turn_level e
    then turn
    else step

unfoldable pub matches_start_type : EventType → EventType → Bool
matches_start_type llm_invoked llm_completed = true
matches_start_type llm_invoked llm_failed = true
matches_start_type tool_invoked tool_completed = true
matches_start_type tool_invoked tool_failed = true
matches_start_type _ _ = false

unfoldable pub valid_terminals_for : EventType → List EventType
valid_terminals_for llm_invoked = llm_completed ∷ llm_failed ∷ []
valid_terminals_for tool_invoked = tool_completed ∷ tool_failed ∷ []
valid_terminals_for _ = []
