-- ===== src/Projection/Apply/Log.antt =====
-- The events of a task one after another, as `ProjectionCache::catch_up` of src/projection.rs applies
-- them.
use lv_fixus.Common.{List, [], ◌∷◌, ◌≡◌}
use lv_fixus.Json.{Json}
use lv_fixus.Error.{ok}
use lv_fixus.Models.Event.{AgentEvent}
use lv_fixus.Models.Guard.{validate_task_event_transition}
use lv_fixus.Common.{some}
use lv_fixus.Projection.{Decoders, TaskProjection}
use lv_fixus.Projection.Apply.{apply_event}

module _ (j : Json) {Content : Type 0} (d : Decoders j Content) where
  -- the records of the stream that carry a known event type, decoded
  unfoldable pub project :
      TaskProjection j.Value → List (AgentEvent j.Value) → TaskProjection j.Value
  project p [] = p
  project p (e ∷ es) = project (apply_event j d p e) es

  -- Each event passes the guard of the write path in the state that the events before it lead to.
  abbrev pub IsGuarded : TaskProjection j.Value → List (AgentEvent j.Value) → Type 0
  IsGuarded p [] = Unit
  IsGuarded p (e ∷ es) =
      (validate_task_event_transition (some p.state) e.event_type ≡ ok tt)
      × IsGuarded (apply_event j d p e) es
