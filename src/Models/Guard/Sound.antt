-- ===== src/Models/Guard/Sound.antt =====
-- The guard of the write path, by state and event type.
use lv_fixus.Common.{true, none, some, ◌≡◌, ◌≢◌, ◌↔◌, ◌⊎◌, arith}
use lv_fixus.Models.EventType.{EventType, task_created}
use lv_fixus.Models.TaskState.{TaskState, is_terminal, can_transition}
use lv_fixus.Models.Guard.{target, validate_task_event_transition}
use lv_fixus.Error.{ok}

-- Before any state is known, only the creation of a task passes among the events that change one.
pub guard_first_iff :
    (e : EventType)
    → (validate_task_event_transition none e ≡ ok tt) ↔ ((target e ≡ none) ⊎ (e ≡ task_created))
unfolding validate_task_event_transition
guard_first_iff e = ground arith

-- Once a task has ended, exactly the events that change no task state pass.
pub guard_terminal_iff :
    (s : TaskState) (e : EventType)
    → is_terminal s ≡ true
    → (validate_task_event_transition (some s) e ≡ ok tt) ↔ (target e ≡ none)
unfolding validate_task_event_transition can_transition
guard_terminal_iff s e h = ground arith

-- A second creation of a task never passes.
pub guard-created_again :
    (s : TaskState) → validate_task_event_transition (some s) task_created ≢ ok tt
unfolding validate_task_event_transition can_transition
guard-created_again s = ground arith
