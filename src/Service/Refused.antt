-- ===== src/Service/Refused.antt =====
-- The transitions of src/service.rs from a terminal state.
use lv_fixus.Common.{String, true, false, Option, some, ℕ, ◌≡◌, refl, arith}
use lv_fixus.Json.{Json, Build}
use lv_fixus.Error.{Result, ok, err, invalid_task_state_transition}
use lv_fixus.Models.EventType.{EventType}
use lv_fixus.Models.TaskState.{
  TaskState, ready, claimed, blocked, succeeded, failed, canceled, can_transition, is_terminal,
}
use lv_fixus.Models.Failure.{FailureReason}
use lv_fixus.Models.Event.{AgentEvent}
use lv_fixus.Store.{EventStore}
use lv_fixus.Service.{
  transition_task, mark_task_ready, claim_task, block_task, succeed_task, fail_task, cancel_task,
}

transition_refused :
    {V S : Type 0} (store : EventStore V S) (now : ℕ) (task_id : String) (from target : TaskState)
    (et : EventType) (payload : V) (s s' : S)
    → store.get_task_state task_id s ≡ (s', ok (some from))
    → can_transition from target ≡ false
    → transition_task store now task_id target et payload s
      ≡ (s', err (invalid_task_state_transition task_id from target))
unfolding transition_task
transition_refused store now task_id from target et payload s s' got refused =
    rw got (rw refused refl)

from_terminal :
    (from target : TaskState) → is_terminal from ≡ true → can_transition from target ≡ false
unfolding can_transition
from_terminal from target h = ground arith

-- When the store reads a terminal state for a task, each of the six operations on the state of the task
-- fails as an illegal transition from that state, and the store stays as the reading left it.
pub terminal_refused :
    (j : Json) (b : Build j) {S : Type 0} (store : EventStore j.Value S) (now : ℕ)
    (task_id text : String) (reason : Option FailureReason) (from : TaskState) (s s' : S)
    → store.get_task_state task_id s ≡ (s', ok (some from))
    → is_terminal from ≡ true
    → let refusal : TaskState → S × Result (AgentEvent j.Value) =
        λ target. (s', err (invalid_task_state_transition task_id from target)) in
      (mark_task_ready j b store now task_id s ≡ refusal ready)
      × (claim_task j b store now task_id text s ≡ refusal claimed)
      × (block_task j b store now task_id text s ≡ refusal blocked)
      × (succeed_task j b store now task_id text s ≡ refusal succeeded)
      × (fail_task j b store now task_id text reason s ≡ refusal failed)
      × (cancel_task j b store now task_id text s ≡ refusal canceled)
unfolding mark_task_ready claim_task block_task succeed_task fail_task cancel_task
terminal_refused j b store now task_id text reason from s s' got ended = (
  transition_refused store now task_id from ready _ _ s s' got (from_terminal from ready ended),
  transition_refused store now task_id from claimed _ _ s s' got (from_terminal from claimed ended),
  transition_refused store now task_id from blocked _ _ s s' got (from_terminal from blocked ended),
  transition_refused store now task_id from succeeded _ _ s s' got
      (from_terminal from succeeded ended),
  transition_refused store now task_id from failed _ _ s s' got (from_terminal from failed ended),
  rw got (rw (from_terminal from canceled ended) refl),
)
