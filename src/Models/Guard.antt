-- ===== src/Models/Guard.antt =====
-- `validate_task_event_transition` of src/models.rs: the guard on the write path of events.
pub mod Sound
use lv_fixus.Common.{Bool, true, false, Option, none, some, if◌then◌else◌}
use lv_fixus.Models.EventType.{
  EventType, task_created, task_ready, task_claimed, task_blocked, task_succeeded, task_failed,
  task_canceled, turn_started, is_turn_started, is_task_created,
}
use lv_fixus.Models.TaskState.{
  TaskState, created, ready, claimed, executing, blocked, succeeded, failed, canceled,
  can_transition,
}
use lv_fixus.Error.{
  AppError, lifecycle_invariant, Result, ok, err, first_must_be_created, illegal_transition,
}

-- the state that an event leads to; `none` for an event that is not checked
unfoldable pub target : EventType → Option TaskState
target task_created = some created
target task_ready = some ready
target task_claimed = some claimed
target task_blocked = some blocked
target task_succeeded = some succeeded
target task_failed = some failed
target task_canceled = some canceled
target turn_started = some executing
target _ = none

-- `matches!(from, Ready | Claimed)`
abbrev pub may_start : TaskState → Bool
may_start ready = true
may_start claimed = true
may_start _ = false

abbrev guard_to : Option TaskState → TaskState → EventType → Result (Unit {0})
guard_to none to e =
    if is_task_created e then ok tt else err (lifecycle_invariant (first_must_be_created e))
guard_to (some from) to e =
    if (if is_turn_started e then may_start from else can_transition from to)
    then ok tt
    else err (lifecycle_invariant (illegal_transition from to e))

abbrev guard_at : Option TaskState → Option TaskState → EventType → Result (Unit {0})
guard_at current none e = ok tt
guard_at current (some to) e = guard_to current to e

unfoldable pub validate_task_event_transition : Option TaskState → EventType → Result (Unit {0})
unfolding target
validate_task_event_transition current e = guard_at current (target e) e
