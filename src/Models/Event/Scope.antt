-- ===== src/Models/Event/Scope.antt =====
-- The scope check of an event.
use lv_fixus.Common.{◌≡◌, ◌↔◌, ◌⊎◌, arith, true, none}
use lv_fixus.Models.EventType.{task, session, turn, step, scope}
use lv_fixus.Models.Event.{AgentEvent, validate_scope, is_some}
use lv_fixus.Error.{ok}

-- The scope check passes exactly the events whose coordinates fit their level: task and session events
-- have neither a turn nor a step, turn events have a turn and no step, step events have a step.
pub validate_scope_iff :
    {V : Type 0} (e : AgentEvent V)
    → (validate_scope e ≡ ok tt) ↔ (
        (((scope e.event_type ≡ task) ⊎ (scope e.event_type ≡ session))
          × (e.turn_id ≡ none)
          × (e.step_id ≡ none))
        ⊎ ((scope e.event_type ≡ turn) × (is_some e.turn_id ≡ true) × (e.step_id ≡ none))
        ⊎ ((scope e.event_type ≡ step) × (is_some e.step_id ≡ true)))
unfolding validate_scope
validate_scope_iff e = ground arith
