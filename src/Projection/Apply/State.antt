-- ===== src/Projection/Apply/State.antt =====
-- The state that a projection shows, against the guard of the write path.
use lv_fixus.Common.{
  String, Option, ◌∙◌, or_false, string_eq, Bool, true, false, none, some, List, [], ◌∷◌, ◌≡◌, refl,
  arith, any, if◌then◌else◌, unwrap_or,
}
use lv_fixus.Common.Int.{ℤ}
use lv_fixus.Common.Map.{get}
use lv_fixus.Json.{Json}
use lv_fixus.Error.{ok}
use lv_fixus.Models.EventType.{
  EventType, task_created, task_ready, task_claimed, task_blocked, task_succeeded, task_failed,
  task_canceled, turn_started, is_turn_started, llm_invoked, llm_completed, llm_failed,
  tool_invoked, tool_completed, tool_failed,
}
use lv_fixus.Models.TaskState.{
  TaskState, created, ready, claimed, executing, blocked, succeeded, failed, canceled, is_terminal,
  can_transition,
}
use lv_fixus.Models.Event.{AgentEvent}
use lv_fixus.Models.Guard.{target, validate_task_event_transition, may_start}
use lv_fixus.Projection.{Decoders, TaskProjection}
use lv_fixus.Projection.Apply.{
  index_event, update_head, apply_event, complete_step, end_step_at, begin_step_at,
}
use lv_fixus.Projection.Apply.Log.{project, IsGuarded}

-- the state after an event, as a transition function
abbrev pub state_after : TaskState → EventType → TaskState
state_after s turn_started = if may_start s then executing else s
state_after s task_created = created
state_after s task_ready = ready
state_after s task_claimed = claimed
state_after s task_blocked = blocked
state_after s task_succeeded = succeeded
state_after s task_failed = failed
state_after s task_canceled = canceled
state_after s _ = s

-- the states of a task whose execution has not begun
abbrev pub before_execution : TaskState → Bool
before_execution created = true
before_execution ready = true
before_execution claimed = true
before_execution canceled = true
before_execution _ = false

guard-state_after :
    (s : TaskState) (et : EventType)
    → validate_task_event_transition (some s) et ≡ ok tt
    → state_after s et ≡ unwrap_or s (target et)
unfolding validate_task_event_transition can_transition
guard-state_after s et h = ground arith

guard-terminal :
    (s : TaskState) (et : EventType)
    → validate_task_event_transition (some s) et ≡ ok tt
    → is_terminal s ≡ true
    → state_after s et ≡ s
unfolding validate_task_event_transition can_transition
guard-terminal s et h t = ground arith

guard-before_execution :
    (s : TaskState) (et : EventType)
    → validate_task_event_transition (some s) et ≡ ok tt
    → before_execution s ≡ true
    → is_turn_started et ≡ false
    → before_execution (state_after s et) ≡ true
unfolding validate_task_event_transition can_transition
guard-before_execution s et h b n = ground arith

module _ {V : Type 0} where
  complete_step-state :
      (sid : String) (o : Option (ℤ × AgentEvent V)) (p : TaskProjection V) (e : AgentEvent V)
      → (complete_step sid o p e).state ≡ p.state
  complete_step-state sid none p e = refl
  complete_step-state sid (some (n, s)) p e = refl

  end_step-state :
      (o : Option String) (p : TaskProjection V) (e : AgentEvent V)
      → (end_step_at o p e).state ≡ p.state
  end_step-state none p e = refl
  end_step-state (some sid) p e = complete_step-state sid (get sid p.active_steps) p e

  begin_step-state :
      (o : Option String) (p : TaskProjection V) (e : AgentEvent V)
      → (begin_step_at o p e).state ≡ p.state
  begin_step-state none p e = refl
  begin_step-state (some sid) p e = refl

module _ (j : Json) {Content : Type 0} (d : Decoders j Content) where
  update_head-state :
      (et : EventType) (p : TaskProjection j.Value) (e : AgentEvent j.Value)
      → (update_head j d et p e).state ≡ state_after p.state et
  unfolding update_head
  update_head-state llm_invoked p e = begin_step-state e.step_id p e
  update_head-state tool_invoked p e = begin_step-state e.step_id p e
  update_head-state llm_completed p e = end_step-state e.step_id p e
  update_head-state llm_failed p e = end_step-state e.step_id p e
  update_head-state tool_completed p e = end_step-state e.step_id p e
  update_head-state tool_failed p e = end_step-state e.step_id p e
  update_head-state _ p e = refl

  apply_event-state :
      (p : TaskProjection j.Value) (e : AgentEvent j.Value)
      → (apply_event j d p e).state ≡ state_after p.state e.event_type
  unfolding index_event
  apply_event-state p e = update_head-state e.event_type (index_event p e) e

  -- After an event that the guard of the write path lets through, the projection shows the state that
  -- the guard checked the transition to, and the same state as before for an event without one.
  pub apply-follows_guard :
      (p : TaskProjection j.Value) (e : AgentEvent j.Value)
      → validate_task_event_transition (some p.state) e.event_type ≡ ok tt
      → (apply_event j d p e).state ≡ unwrap_or p.state (target e.event_type)
  apply-follows_guard p e h = apply_event-state p e ∙ guard-state_after p.state e.event_type h

  -- Once a projection shows a terminal state, it shows that state after any further events that the
  -- guard of the write path lets through.
  pub project_terminal :
      (p : TaskProjection j.Value) (es : List (AgentEvent j.Value))
      → IsGuarded j d p es
      → is_terminal p.state ≡ true
      → (project j d p es).state ≡ p.state
  unfolding project
  project_terminal p [] g t = refl
  project_terminal p (e ∷ es) g t =
      let same : (apply_event j d p e).state ≡ p.state =
        apply_event-state p e ∙ guard-terminal p.state e.event_type g.0 t in
      project_terminal (apply_event j d p e) es g.1 (rw same t) ∙ same

  -- Over events that the guard lets through and that start no turn, a task that has not begun to
  -- execute does not begin to: it is not executing, blocked, succeeded or failed.
  pub project_without_turns :
      (p : TaskProjection j.Value) (es : List (AgentEvent j.Value))
      → IsGuarded j d p es
      → before_execution p.state ≡ true
      → any (λ e. is_turn_started e.event_type) es ≡ false
      → before_execution (project j d p es).state ≡ true
  unfolding project
  project_without_turns p [] g b n = b
  project_without_turns p (e ∷ es) g b n =
      let (n0, n1) = or_false (is_turn_started e.event_type) _ n in
      project_without_turns (apply_event j d p e) es g.1
        (rw (apply_event-state p e) (guard-before_execution p.state e.event_type g.0 b n0)) n1
