-- ===== src/Projection/Apply/Active.antt =====
-- The turns and steps that a projection shows as begun and not ended.
use lv_fixus.Common.{
  String, Bool, true, false, Option, none, some, List, [], ◌∷◌, ◌≡◌, refl, ◌∙◌, ap, arith,
  if◌then◌else◌, ◌==◌, string_eq,
}
use lv_fixus.Common.Int.{ℤ, int_eq}
use lv_fixus.Common.Map.{get, contains, get-insert, get-remove, contains-add, contains-discard}
use lv_fixus.Json.{Json}
use lv_fixus.Models.EventType.{
  EventType, llm_invoked, llm_completed, llm_failed, tool_invoked, tool_completed, tool_failed,
  turn_started, turn_completed, turn_failed, turn_canceled, turn_blocked, is_turn_terminal,
  is_turn_started, is_step_start, is_step_terminal,
}
use lv_fixus.Models.Event.{AgentEvent}
use lv_fixus.Projection.{Decoders, TaskProjection}
use lv_fixus.Projection.Apply.{
  index_event, update_head, apply_event, complete_step, end_step_at, begin_step_at, add_turn,
  remove_turn,
}
use lv_fixus.Projection.Apply.Index.{is_of_turn}
use lv_fixus.Projection.Apply.Log.{project}

abbrev pub is_of_step : String → Option String → Bool
is_of_step s none = false
is_of_step s (some r) = r == s

-- the step's latest start that no end has followed
abbrev pub open_step :
    {V : Type 0} → String → Option (ℤ × AgentEvent V) → AgentEvent V → Option (ℤ × AgentEvent V)
open_step s o e =
    if is_of_step s e.step_id
    then (if is_step_start e.event_type
        then some (e.seq, e)
        else if is_step_terminal e.event_type
        then none
        else o)
    else o

abbrev pub open_step_after :
    {V : Type 0}
    → String
    → Option (ℤ × AgentEvent V)
    → List (AgentEvent V)
    → Option (ℤ × AgentEvent V)
open_step_after s o [] = o
open_step_after s o (e ∷ es) = open_step_after s (open_step s o e) es

-- whether the turn's latest start has no end behind it
abbrev pub open_turn : {V : Type 0} → ℤ → Bool → AgentEvent V → Bool
open_turn t b e =
    if is_of_turn t e.turn_id
    then (if is_turn_started e.event_type
        then true
        else if is_turn_terminal e.event_type
        then false
        else b)
    else b

abbrev pub open_turn_after : {V : Type 0} → ℤ → Bool → List (AgentEvent V) → Bool
open_turn_after t b [] = b
open_turn_after t b (e ∷ es) = open_turn_after t (open_turn t b e) es

module _ {V : Type 0} where
  get-complete_step :
      (s sid : String) (o : Option (ℤ × AgentEvent V)) (p : TaskProjection V) (e : AgentEvent V)
      → get sid p.active_steps ≡ o
      → get s (complete_step sid o p e).active_steps
        ≡ (if sid == s then none else get s p.active_steps)
  get-complete_step s sid none p e h = ground (arith, string_eq.same_iff sid s)
  get-complete_step s sid (some (n, b)) p e h = get-remove sid s p.active_steps

  get-end_step :
      (s : String) (o : Option String) (p : TaskProjection V) (e : AgentEvent V)
      → get s (end_step_at o p e).active_steps
        ≡ (if is_of_step s o then none else get s p.active_steps)
  get-end_step s none p e = refl
  get-end_step s (some sid) p e = get-complete_step s sid (get sid p.active_steps) p e refl

  get-begin_step :
      (s : String) (o : Option String) (p : TaskProjection V) (e : AgentEvent V)
      → get s (begin_step_at o p e).active_steps
        ≡ (if is_of_step s o then some (e.seq, e) else get s p.active_steps)
  get-begin_step s none p e = refl
  get-begin_step s (some sid) p e = get-insert sid s (e.seq, e) p.active_steps

contains-add_turn :
    (t : ℤ) (o : Option ℤ) (turns : List ℤ)
    → contains t (add_turn o turns) ≡ (if is_of_turn t o then true else contains t turns)
contains-add_turn t none turns = refl
contains-add_turn t (some u) turns = ground (arith, contains-add u t turns)

contains-remove_turn :
    (t : ℤ) (o : Option ℤ) (turns : List ℤ)
    → contains t (remove_turn o turns) ≡ (if is_of_turn t o then false else contains t turns)
contains-remove_turn t none turns = refl
contains-remove_turn t (some u) turns = contains-discard u t turns

stays {ℓ} : {A : Type ℓ} (b : Bool) (a : A) → a ≡ (if b then a else a)
stays true a = refl
stays false a = refl

module _ {V : Type 0} where
  ended_turns :
      (sid : String) (o : Option (ℤ × AgentEvent V)) (p : TaskProjection V) (e : AgentEvent V)
      → (complete_step sid o p e).active_turns ≡ p.active_turns
  ended_turns sid none p e = refl
  ended_turns sid (some (n, s)) p e = refl

  keeps_ended :
      (t : ℤ) (o : Option String) (p : TaskProjection V) (e : AgentEvent V)
      → contains t (end_step_at o p e).active_turns
        ≡ (if is_of_turn t e.turn_id then contains t p.active_turns else contains t p.active_turns)
  keeps_ended t none p e = stays (is_of_turn t e.turn_id) _
  keeps_ended t (some sid) p e =
      ap (contains t) (ended_turns sid (get sid p.active_steps) p e)
      ∙ stays (is_of_turn t e.turn_id) _

  keeps_begun :
      (t : ℤ) (o : Option String) (p : TaskProjection V) (e : AgentEvent V)
      → contains t (begin_step_at o p e).active_turns
        ≡ (if is_of_turn t e.turn_id then contains t p.active_turns else contains t p.active_turns)
  keeps_begun t none p e = stays (is_of_turn t e.turn_id) _
  keeps_begun t (some sid) p e = stays (is_of_turn t e.turn_id) _

module _ (j : Json) {Content : Type 0} (d : Decoders j Content) where
  update_head-active_steps :
      (s : String) (et : EventType) (p : TaskProjection j.Value) (e : AgentEvent j.Value)
      → get s (update_head j d et p e).active_steps ≡ (
          if is_of_step s e.step_id
          then (if is_step_start et
              then some (e.seq, e)
              else if is_step_terminal et
              then none
              else get s p.active_steps)
          else get s p.active_steps)
  unfolding update_head is_step_start is_step_terminal
  update_head-active_steps s llm_invoked p e = get-begin_step s e.step_id p e
  update_head-active_steps s tool_invoked p e = get-begin_step s e.step_id p e
  update_head-active_steps s llm_completed p e = get-end_step s e.step_id p e
  update_head-active_steps s llm_failed p e = get-end_step s e.step_id p e
  update_head-active_steps s tool_completed p e = get-end_step s e.step_id p e
  update_head-active_steps s tool_failed p e = get-end_step s e.step_id p e
  update_head-active_steps s _ p e = stays (is_of_step s e.step_id) _

  -- After a log, a step is shown as active exactly when its latest start in the log has no end behind
  -- it, with that start; a step without events in the log is shown as before it.
  pub project-active_steps :
      (s : String) (p : TaskProjection j.Value) (es : List (AgentEvent j.Value))
      → get s (project j d p es).active_steps ≡ open_step_after s (get s p.active_steps) es
  unfolding project index_event
  project-active_steps s p [] = refl
  project-active_steps s p (e ∷ es) =
      project-active_steps s (apply_event j d p e) es
      ∙ ap (λ o. open_step_after s o es)
          (update_head-active_steps s e.event_type (index_event p e) e)

  update_head-active_turns :
      (t : ℤ) (et : EventType) (p : TaskProjection j.Value) (e : AgentEvent j.Value)
      → contains t (update_head j d et p e).active_turns ≡ (
          if is_of_turn t e.turn_id
          then (if is_turn_started et
              then true
              else if is_turn_terminal et
              then false
              else contains t p.active_turns)
          else contains t p.active_turns)
  unfolding update_head is_turn_terminal
  update_head-active_turns t turn_started p e = contains-add_turn t e.turn_id p.active_turns
  update_head-active_turns t turn_completed p e = contains-remove_turn t e.turn_id p.active_turns
  update_head-active_turns t turn_failed p e = contains-remove_turn t e.turn_id p.active_turns
  update_head-active_turns t turn_canceled p e = contains-remove_turn t e.turn_id p.active_turns
  update_head-active_turns t turn_blocked p e = contains-remove_turn t e.turn_id p.active_turns
  update_head-active_turns t llm_invoked p e = keeps_begun t e.step_id p e
  update_head-active_turns t tool_invoked p e = keeps_begun t e.step_id p e
  update_head-active_turns t llm_completed p e = keeps_ended t e.step_id p e
  update_head-active_turns t llm_failed p e = keeps_ended t e.step_id p e
  update_head-active_turns t tool_completed p e = keeps_ended t e.step_id p e
  update_head-active_turns t tool_failed p e = keeps_ended t e.step_id p e
  update_head-active_turns t _ p e = stays (is_of_turn t e.turn_id) _

  -- After a log, a turn is shown as active exactly when its latest start in the log has no terminal
  -- event of the turn behind it; a turn without events in the log is shown as before it.
  pub project-active_turns :
      (t : ℤ) (p : TaskProjection j.Value) (es : List (AgentEvent j.Value))
      → contains t (project j d p es).active_turns
        ≡ open_turn_after t (contains t p.active_turns) es
  unfolding project index_event
  project-active_turns t p [] = refl
  project-active_turns t p (e ∷ es) =
      project-active_turns t (apply_event j d p e) es
      ∙ ap (λ b. open_turn_after t b es)
          (update_head-active_turns t e.event_type (index_event p e) e)
