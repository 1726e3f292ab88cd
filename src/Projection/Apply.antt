-- ===== src/Projection/Apply.antt =====
-- `TaskProjection::apply` of src/projection.rs: one event enters the projection.
pub mod Log
pub mod State
pub mod Active
pub mod Index
use lv_fixus.Common.{
  String, Option, none, some, ℕ, List, [], ◌∷◌, ◌++◌, if◌then◌else◌, string_eq, unwrap_or, opt_bind,
}
use lv_fixus.Common.Int.{ℤ, pos, max_ℤ, as_i64, as_i32, add_i64, int_eq}
use lv_fixus.Common.Map.{Map, get, insert, remove, add, discard}
use lv_fixus.Json.{Json, at}
use lv_fixus.Error.{Result, ok, err, invalid_event_type}
use lv_fixus.Models.EventType
use lv_fixus.Models.EventType.{
  EventType, task_created, task_ready, task_claimed, task_blocked, task_succeeded, task_failed,
  task_canceled, turn_started, turn_completed, turn_failed, turn_canceled, turn_blocked,
  llm_invoked, llm_completed, llm_failed, tool_invoked, tool_completed, tool_failed, summary_marker,
}
use lv_fixus.Models.TaskState.{
  created, ready, claimed, executing, blocked, succeeded, failed, canceled,
}
use lv_fixus.Models.Event.{AgentEvent}
use lv_fixus.Models.Guard.{may_start}
use lv_fixus.Models.Tokens.{TokenUsageStats}
use lv_fixus.Projection.{Decoders, TaskProjection}

abbrev pub push_seq : Option ℤ → ℤ → Map ℤ (List ℤ) → Map ℤ (List ℤ)
push_seq none seq m = m
push_seq (some tid) seq m = insert tid (unwrap_or [] (get tid m) ++ (seq ∷ [])) m

abbrev pub max_turn : Option ℤ → ℤ → ℤ
max_turn none m = m
max_turn (some tid) m = max_ℤ m tid

abbrev pub push_recent : Option ℤ → List ℤ → List ℤ
push_recent none recent = recent
push_recent (some tid) recent = recent ++ (tid ∷ [])

abbrev pub add_turn : Option ℤ → List ℤ → List ℤ
add_turn none turns = turns
add_turn (some tid) turns = add tid turns

abbrev pub remove_turn : Option ℤ → List ℤ → List ℤ
remove_turn none turns = turns
remove_turn (some tid) turns = discard tid turns

module _ {V : Type 0} where
  -- the part before the `match`: sequence numbers and indexes
  unfoldable pub index_event : TaskProjection V → AgentEvent V → TaskProjection V
  index_event p e = record p {
    max_seq = max_ℤ p.max_seq e.seq;
    max_turn_id = max_turn e.turn_id p.max_turn_id;
    by_seq = insert e.seq e p.by_seq;
    by_turn_id = push_seq e.turn_id e.seq p.by_turn_id;
    recent_turn_ids = push_recent e.turn_id p.recent_turn_ids;
  }

  abbrev pub begin_turn : TaskProjection V → AgentEvent V → TaskProjection V
  begin_turn p e = record p {
    state = if may_start p.state then executing else p.state;
    active_turns = add_turn e.turn_id p.active_turns;
  }

  abbrev pub end_turn : TaskProjection V → AgentEvent V → TaskProjection V
  end_turn p e = record p { active_turns = remove_turn e.turn_id p.active_turns }

  abbrev pub begin_step_at : Option String → TaskProjection V → AgentEvent V → TaskProjection V
  begin_step_at none p e = p
  begin_step_at (some sid) p e = record p { active_steps = insert sid (e.seq, e) p.active_steps }

  abbrev pub begin_step : TaskProjection V → AgentEvent V → TaskProjection V
  begin_step p e = begin_step_at e.step_id p e

  abbrev pub complete_step :
      String → Option (ℤ × AgentEvent V) → TaskProjection V → AgentEvent V → TaskProjection V
  complete_step sid none p e = p
  complete_step sid (some (start_seq, start_ev)) p e = record p {
    active_steps = remove sid p.active_steps;
    completed_steps =
        insert sid (start_seq, start_ev, EventType.as_str e.event_type, e.seq) p.completed_steps;
  }

  abbrev pub end_step_at : Option String → TaskProjection V → AgentEvent V → TaskProjection V
  end_step_at none p e = p
  end_step_at (some sid) p e = complete_step sid (get sid p.active_steps) p e

  abbrev pub end_step : TaskProjection V → AgentEvent V → TaskProjection V
  end_step p e = end_step_at e.step_id p e

module _ (j : Json) where
  abbrev read_i64 : ℤ → j.Value → String → ℤ
  read_i64 default v key = unwrap_or default (j.as_i64 (at j v key))

  -- `filter(|v| !v.is_null())`
  abbrev not_null : Option j.Value → Option j.Value
  not_null none = none
  not_null (some v) = if j.is_null v then none else some v

  abbrev new_stats : String → TokenUsageStats
  new_stats model = record {
    model = model;
    call_count = pos 0;
    prompt_tokens = pos 0;
    completion_tokens = pos 0;
    total_tokens = pos 0;
  }

  abbrev pub add_usage : TokenUsageStats → j.Value → TokenUsageStats
  add_usage s usage = record s {
    call_count = add_i64 s.call_count (pos 1);
    prompt_tokens = add_i64 s.prompt_tokens (read_i64 (pos 0) usage "prompt_tokens");
    completion_tokens = add_i64 s.completion_tokens (read_i64 (pos 0) usage "completion_tokens");
    total_tokens = add_i64 s.total_tokens (read_i64 (pos 0) usage "total_tokens");
  }

  abbrev pub count_usage :
      String → Option j.Value → Map String TokenUsageStats → Map String TokenUsageStats
  count_usage model none stats = stats
  count_usage model (some usage) stats =
      insert model (add_usage (unwrap_or (new_stats model) (get model stats)) usage) stats

  abbrev pub add_tokens : TaskProjection j.Value → j.Value → TaskProjection j.Value
  add_tokens p payload = record p {
    token_stats =
        count_usage (unwrap_or "?" (j.as_str (at j payload "model"))) (j.get payload "usage")
          p.token_stats;
  }

  abbrev pub mark_summary : TaskProjection j.Value → AgentEvent j.Value → TaskProjection j.Value
  mark_summary p e = record p {
    latest_summary = some e.payload;
    summarized_up_to_seq = read_i64 e.seq e.payload "summarized_up_to_seq";
    summarized_up_to_turn_id =
        read_i64 p.summarized_up_to_turn_id e.payload "summarized_up_to_turn_id";
  }

  module _ {Content : Type 0} (d : Decoders j Content) where
    abbrev pub create : TaskProjection j.Value → j.Value → TaskProjection j.Value
    create p payload = record p {
      task_type = unwrap_or "?" (j.as_str (at j payload "task_type"));
      provenance = unwrap_or p.provenance (opt_bind (j.get payload "provenance") d.provenance);
      body = not_null (j.get payload "body");
      priority = as_i32 (read_i64 (pos 0) payload "priority");
      effective_policy = opt_bind (not_null (j.get payload "effective_policy")) d.effective_policy;
      state = created;
    }

    -- the `match` on the type of the event
    unfoldable pub update_head :
        EventType → TaskProjection j.Value → AgentEvent j.Value → TaskProjection j.Value
    update_head task_created p e = create p e.payload
    update_head task_ready p e = record p { state = ready }
    update_head task_claimed p e = record p { state = claimed }
    update_head task_blocked p e = record p { state = blocked }
    update_head task_succeeded p e = record p { state = succeeded }
    update_head task_failed p e = record p { state = failed }
    update_head task_canceled p e = record p { state = canceled }
    update_head turn_started p e = begin_turn p e
    update_head turn_completed p e = end_turn p e
    update_head turn_failed p e = end_turn p e
    update_head turn_canceled p e = end_turn p e
    update_head turn_blocked p e = end_turn p e
    update_head llm_invoked p e = begin_step p e
    update_head tool_invoked p e = begin_step p e
    update_head llm_completed p e = add_tokens (end_step p e) e.payload
    update_head llm_failed p e = end_step p e
    update_head tool_completed p e = end_step p e
    update_head tool_failed p e = end_step p e
    update_head summary_marker p e = mark_summary p e
    update_head _ p e = p

    -- the event that the indexes keep
    abbrev pub indexed :
        ℕ
        → TaskProjection j.Value
        → ℕ
        → EventType
        → Content
        → Map String String
        → AgentEvent j.Value
    indexed now p seq et content metadata = record {
      task_id = p.task_id;
      seq = as_i64 seq;
      turn_id = opt_bind (get "turn_id" metadata) d.parse_i64;
      step_id = get "step_id" metadata;
      event_type = et;
      schema_version = 1;
      payload = unwrap_or j.null (d.from_slice content);
      created_at = now;
    }

    abbrev pub apply_event : TaskProjection j.Value → AgentEvent j.Value → TaskProjection j.Value
    apply_event p e = update_head e.event_type (index_event p e) e

    abbrev apply_as :
        ℕ
        → TaskProjection j.Value
        → ℕ
        → String
        → Option EventType
        → Content
        → Map String String
        → Result (TaskProjection j.Value)
    apply_as now p seq name none content metadata = err (invalid_event_type name)
    apply_as now p seq name (some et) content metadata =
        ok (apply_event p (indexed now p seq et content metadata))

    -- `&mut self` is returned on success; an error leaves the projection as it was
    unfoldable pub apply :
        ℕ
        → TaskProjection j.Value
        → ℕ
        → String
        → Content
        → Map String String
        → Result (TaskProjection j.Value)
    apply now p seq name content metadata =
        apply_as now p seq name (EventType.from_str name) content metadata
