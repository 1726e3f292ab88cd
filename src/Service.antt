-- ===== src/Service.antt =====
-- src/service.rs: the operations on tasks and turns, each of which reads the store, checks and writes one
-- event. `now` is the clock's reading. Arguments that are only serialized stand as their JSON values.
pub mod Steps
pub mod Summary
pub mod Transitions
pub mod Turns
pub mod Refused
pub mod Checked
use lv_fixus.Common.{
  String, Bool, true, false, Option, none, some, ℕ, zero, suc, List, [], ◌∷◌, ◌++◌, if◌then◌else◌,
  unwrap_or,
}
use lv_fixus.Common.Int.{ℤ, pos, add_i64}
use lv_fixus.Json.{Json, Build, optional}
use lv_fixus.Error.{
  AppError, Result, ok, err, task_not_found, task_already_ended, invalid_task_state_transition,
}
use lv_fixus.Models.EventType.{
  EventType, task_ready, task_claimed, task_blocked, task_succeeded, task_failed, task_canceled,
  turn_started, turn_completed, turn_failed, turn_canceled, turn_blocked,
}
use lv_fixus.Models.TaskState
use lv_fixus.Models.TaskState.{TaskState, can_transition}
use lv_fixus.Models.Failure
use lv_fixus.Models.Failure.{FailureReason}
use lv_fixus.Models.Event
use lv_fixus.Models.Event.{AgentEvent}
use lv_fixus.Store.{EventStore, Action, return, fail, ◌>>=◌}

abbrev pub is_seen : Result Bool → Bool
is_seen (ok seen) = seen
is_seen (err e) = false

module _ {V S : Type 0} (store : EventStore V S) where
  -- the event is written, and comes back with its sequence number
  abbrev pub write_new : AgentEvent V → Action S (AgentEvent V)
  write_new event = do seq ← store.write_event event; return (record event { seq = seq })

  -- `ok_or_else(|| TaskNotFound)`
  abbrev pub found : String → Option TaskState → Action S TaskState
  found task_id none = fail (task_not_found task_id)
  found task_id (some s) = return s

  unfoldable pub transition_task : ℕ → String → TaskState → EventType → V → Action S (AgentEvent V)
  transition_task now task_id target event_type payload = do
    state ← store.get_task_state task_id
    current ← found task_id state
    if can_transition current target
        then write_new (Event.new now task_id none none event_type payload)
        else fail (invalid_task_state_transition task_id current target)

  -- up to `n` attempts to see the task, with a pause between them; an error counts as not seen
  unfoldable pub await_task : ℕ → String → S → S × Bool
  await_task zero task_id s = (s, false)
  await_task (suc n) task_id s =
      let (s', seen) = store.task_exists task_id s in
      let rest = await_task n task_id s' in if is_seen seen then (s', true) else rest

module _ (j : Json) (b : Build j) where
  open b use {object, string, int}

  abbrev pub reason_member : Option FailureReason → List (String × j.Value)
  reason_member reason = optional "failure_reason" (λ r. string (Failure.as_str r)) reason

  abbrev pub turn_started_payload : String → String → ℤ → j.Value
  turn_started_payload user_input redo_group redo_count = object (
      ("user_input", string user_input)
      ∷ ("redo_group", string redo_group)
      ∷ ("redo_count", int redo_count)
      ∷ [])

  -- `stack_trace` is written also when there is none
  abbrev pub turn_failed_payload : String → String → Option String → Option FailureReason → j.Value
  turn_failed_payload error_type error_message stack_trace reason = object (
      ("error_type", string error_type)
      ∷ ("error_message", string error_message)
      ∷ (reason_member reason
          ++ (("stack_trace", elim stack_trace [ none ↦ j.null | some s ↦ string s ]) ∷ [])))

  module _ {S : Type 0} (store : EventStore j.Value S) (now : ℕ) where
    unfoldable pub mark_task_ready : String → Action S (AgentEvent j.Value)
    mark_task_ready task_id =
        transition_task store now task_id TaskState.ready task_ready (object [])

    unfoldable pub claim_task : String → String → Action S (AgentEvent j.Value)
    claim_task task_id claimant =
        transition_task store now task_id TaskState.claimed task_claimed
          (object (("claimant", string claimant) ∷ []))

    unfoldable pub block_task : String → String → Action S (AgentEvent j.Value)
    block_task task_id reason =
        transition_task store now task_id TaskState.blocked task_blocked
          (object (("reason", string reason) ∷ []))

    unfoldable pub succeed_task : String → String → Action S (AgentEvent j.Value)
    succeed_task task_id reason =
        transition_task store now task_id TaskState.succeeded task_succeeded
          (object (("reason", string reason) ∷ []))

    unfoldable pub fail_task :
        String → String → Option FailureReason → Action S (AgentEvent j.Value)
    fail_task task_id reason failure_reason =
        transition_task store now task_id TaskState.failed task_failed
          (object (("reason", string reason) ∷ reason_member failure_reason))

    unfoldable pub cancel_task : String → String → Action S (AgentEvent j.Value)
    cancel_task task_id reason = do
      state ← store.get_task_state task_id
      current ← found store task_id state
      if can_transition current TaskState.canceled
          then write_new store (
              Event.new now task_id none none task_canceled
                (object (("reason", string reason) ∷ [])))
          else fail (invalid_task_state_transition task_id current TaskState.canceled)

    abbrev pub when_seen : {A : Type 0} → S × Bool → Action S A → AppError → S × Result A
    when_seen (s, true) k e = k s
    when_seen (s, false) k e = (s, err e)

    -- `fresh` is the group made of a new UUID
    abbrev pub start_seen :
        String → String → Option String → String → Action S (ℤ × (String × AgentEvent j.Value))
    start_seen task_id user_input redo_group fresh = do
      ended ← store.is_task_ended task_id
      if ended then fail (task_already_ended task_id) else do
        max_turn ← store.get_max_turn_id task_id
        let turn_id = add_i64 max_turn (pos 1)
        let group = unwrap_or fresh redo_group
        event ← write_new store (
            Event.new now task_id (some turn_id) none turn_started
              (turn_started_payload user_input group (pos 0)))
        return (turn_id, (group, event))

    unfoldable pub start_turn :
        String → String → Option String → String → Action S (ℤ × (String × AgentEvent j.Value))
    start_turn task_id user_input redo_group fresh s =
        when_seen (await_task store 30 task_id s) (start_seen task_id user_input redo_group fresh)
          (task_not_found task_id)

    unfoldable pub complete_turn : String → ℤ → String → Action S (AgentEvent j.Value)
    complete_turn task_id turn_id final_output = write_new store (
        Event.new now task_id (some turn_id) none turn_completed
          (object (("final_output", string final_output) ∷ [])))

    unfoldable pub fail_turn :
        String
        → ℤ
        → String
        → String
        → Option String
        → Option FailureReason
        → Action S (AgentEvent j.Value)
    fail_turn task_id turn_id error_type error_message stack_trace failure_reason =
        write_new store (
          Event.new now task_id (some turn_id) none turn_failed
            (turn_failed_payload error_type error_message stack_trace failure_reason))

    unfoldable pub cancel_turn : String → ℤ → String → Action S (AgentEvent j.Value)
    cancel_turn task_id turn_id reason = write_new store (
        Event.new now task_id (some turn_id) none turn_canceled
          (object (("reason", string reason) ∷ [])))

    unfoldable pub block_turn : String → ℤ → String → Action S (AgentEvent j.Value)
    block_turn task_id turn_id reason = write_new store (
        Event.new now task_id (some turn_id) none turn_blocked
          (object (("reason", string reason) ∷ [])))

    unfoldable pub start_turn_redo :
        String → ℤ → String → String → ℤ → Action S (AgentEvent j.Value)
    start_turn_redo task_id turn_id user_input redo_group redo_count = write_new store (
        Event.new now task_id (some turn_id) none turn_started
          (turn_started_payload user_input redo_group redo_count))
