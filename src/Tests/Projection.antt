-- ===== src/Tests/Projection.antt =====
-- The theorems on src/projection.rs at concrete inputs.
use lv_fixus.Common.{
  String, true, Option, none, some, List, [], ◌∷◌, ◌≡◌, refl, ℕ, arith, string_eq, if◌then◌else◌,
  ◌==◌,
}
use lv_fixus.Common.Int.{ℤ, pos, int_eq}
use lv_fixus.Common.Map.{get, contains}
use lv_fixus.Models.EventType.{
  EventType, turn_started, tool_invoked, tool_completed, task_ready, llm_invoked,
}
use lv_fixus.Models.TaskState.{is_terminal, ready, executing, succeeded, can_transition}
use lv_fixus.Models.Event.{AgentEvent}
use lv_fixus.Models.Guard.{validate_task_event_transition, target}
use lv_fixus.Projection.{Decoders, TaskProjection, new}
use lv_fixus.Projection.Apply.{apply_event}
use lv_fixus.Projection.Apply.Log.{project}
use lv_fixus.Projection.Apply.State.{
  apply-follows_guard, project_terminal, project_without_turns, before_execution,
}
use lv_fixus.Projection.Apply.Active.{
  project-active_steps, project-active_turns, open_step_after, open_turn_after,
}
use lv_fixus.Projection.Queries.{filter_map, event_at, turn_seqs}
use lv_fixus.Projection.Queries.Turns.{turn_events-project}
use lv_fixus.Projection.Cache.{LruMap, catch_up, catch_up_evicts_itself}
use lv_fixus.Tests.Values.{JsonValue, null, json}

abbrev pub decoders : Decoders json JsonValue
decoders = record {
  from_slice = λ v. some v;
  provenance = λ v. none;
  effective_policy = λ v. none;
  parse_i64 = λ s. if s == "1" then some (pos 1) else none;
}

abbrev pub event : ℕ → Option ℤ → Option String → EventType → AgentEvent JsonValue
event n turn_id step_id event_type = record {
  task_id = "t";
  seq = pos n;
  turn_id = turn_id;
  step_id = step_id;
  event_type = event_type;
  schema_version = 1;
  payload = null;
  created_at = n;
}

abbrev pub start : AgentEvent JsonValue
start = event 3 (some (pos 1)) none turn_started

abbrev call : AgentEvent JsonValue
call = event 4 (some (pos 1)) (some "s") tool_invoked

abbrev think : AgentEvent JsonValue
think = event 5 (some (pos 2)) (some "u") llm_invoked

abbrev log : List (AgentEvent JsonValue)
log = start ∷ call ∷ think ∷ event 6 (some (pos 1)) (some "s") tool_completed ∷ []

abbrev pub ready_task : TaskProjection JsonValue
ready_task = record (new 0 "t") { state = ready }

abbrev ended_task : TaskProjection JsonValue
ended_task = record (new 0 "t") { state = succeeded }

apply-follows_guard_example : (apply_event json decoders ready_task start).state ≡ executing
unfolding target
apply-follows_guard_example =
    apply-follows_guard json decoders ready_task start
      (unfold validate_task_event_transition in refl)

project_terminal_example : (project json decoders ended_task (call ∷ think ∷ [])).state ≡ succeeded
project_terminal_example =
    project_terminal json decoders ended_task (call ∷ think ∷ [])
      (unfold validate_task_event_transition target in (refl, (refl, tt)))
      (unfold is_terminal in refl)

abbrev made_ready : AgentEvent JsonValue
made_ready = event 1 none none task_ready

project_without_turns_example :
    before_execution (project json decoders (new 0 "t") (made_ready ∷ [])).state ≡ true
project_without_turns_example =
    project_without_turns json decoders (new 0 "t") (made_ready ∷ [])
      (unfold validate_task_event_transition can_transition new in (refl, tt)) (unfold new in refl)
      refl

project-active_steps_example :
    get "s" (project json decoders (new 0 "t") (start ∷ call ∷ think ∷ [])).active_steps
    ≡ open_step_after "s"
        (get "s" (new {V = JsonValue} 0 "t").active_steps)
        (start ∷ call ∷ think ∷ [])
project-active_steps_example =
    project-active_steps json decoders "s" (new 0 "t") (start ∷ call ∷ think ∷ [])

project-active_turns_example :
    contains (pos 1) (project json decoders (new 0 "t") log).active_turns
    ≡ open_turn_after (pos 1) (contains (pos 1) (new {V = JsonValue} 0 "t").active_turns) log
project-active_turns_example = project-active_turns json decoders (pos 1) (new 0 "t") log

turn_events-project_example :
    filter_map
      (event_at (project json decoders (new 0 "t") (start ∷ think ∷ [])))
      (turn_seqs (project json decoders (new 0 "t") (start ∷ think ∷ [])) (pos 1))
    ≡ start ∷ []
turn_events-project_example =
    turn_events-project json decoders 0 "t" (pos 1) (start ∷ think ∷ [])
      ((λ e. ground arith, tt), (tt, tt))

abbrev full_cache : LruMap ℕ
full_cache = record { map = ("t", 1) ∷ []; order = "t" ∷ []; cap = 1 }

catch_up_evicts_itself_example : get "t" (catch_up full_cache "t" 0 (λ p. p)).map ≡ none
catch_up_evicts_itself_example = catch_up_evicts_itself full_cache "t" [] 0 (λ p. p) refl refl
