-- ===== src/Models/EventType/Levels.antt =====
-- The levels of event types, and the pairing of step starts with step ends.
use lv_fixus.Common.{true, [], ◌∷◌, ◌≡◌, refl, ◌↔◌, arith, Memᴰ, All}
use lv_fixus.Models.EventType.{
  EventType, session_started, llm_invoked, llm_completed, llm_failed, tool_completed, tool_failed,
  tool_invoked, task, session, turn, step, is_task_level, is_session_level, is_turn_level,
  is_step_level, is_step_start, is_step_terminal, scope, matches_start_type, valid_terminals_for,
}

-- The scope of an event type is the one level whose test it passes, so each event type has exactly
-- one level.
pub scope_iff :
    (e : EventType)
    → ((scope e ≡ task) ↔ (is_task_level e ≡ true))
      × ((scope e ≡ session) ↔ (is_session_level e ≡ true))
      × ((scope e ≡ turn) ↔ (is_turn_level e ≡ true))
      × ((scope e ≡ step) ↔ (is_step_level e ≡ true))
unfolding scope is_step_level
scope_iff session_started = ground arith
scope_iff _ = ground arith

llm_ends :
    (t : EventType)
    → matches_start_type llm_invoked t ≡ true
    → Memᴰ t (llm_completed ∷ llm_failed ∷ [])
unfolding matches_start_type
llm_ends llm_completed h = Memᴰ.head refl
llm_ends llm_failed h = Memᴰ.tail (Memᴰ.head refl)
llm_ends _ h = cc

tool_ends :
    (t : EventType)
    → matches_start_type tool_invoked t ≡ true
    → Memᴰ t (tool_completed ∷ tool_failed ∷ [])
unfolding matches_start_type
tool_ends tool_completed h = Memᴰ.head refl
tool_ends tool_failed h = Memᴰ.tail (Memᴰ.head refl)
tool_ends _ h = cc

-- Each listed end of a start matches it, and each event type that matches a start is listed.
pub valid_terminals-matches :
    (start : EventType)
    → All (λ terminal. matches_start_type start terminal ≡ true) (valid_terminals_for start)
      × ((terminal : EventType)
          → matches_start_type start terminal ≡ true
          → Memᴰ terminal (valid_terminals_for start))
unfolding valid_terminals_for matches_start_type
valid_terminals-matches session_started = (tt, λ t h. cc)
valid_terminals-matches llm_invoked = ((refl, (refl, tt)), llm_ends)
valid_terminals-matches tool_invoked = ((refl, (refl, tt)), tool_ends)
valid_terminals-matches _ = (tt, λ t h. cc)

-- The ends of steps are the event types that match a start, and what they match is a step start.
pub matches_start_terminal :
    (start terminal : EventType)
    → matches_start_type start terminal ≡ true
    → (is_step_start start ≡ true) × (is_step_terminal terminal ≡ true)
unfolding matches_start_type is_step_start is_step_terminal
matches_start_terminal llm_invoked terminal h = ground arith
matches_start_terminal _ terminal h = ground arith
