-- ===== src/Orchestrator/Ends.antt =====
-- What an agent's report that a turn ended does, src/orchestrator.rs. A report comes once or more often, in
-- any order.
use lv_fixus.Common.{String, Option, none, some, unwrap_or, find, length, string_eq}
use lv_fixus.Common.Int.{ℤ, pos, add_i32}
use lv_fixus.Common.Map.{get, insert}
use lv_fixus.Context.{str_at}
use lv_fixus.Error.{ok, err}
use lv_fixus.Models.Event.{AgentEvent}
use lv_fixus.Models.EventType.{is_turn_started}
use lv_fixus.Models.Failure.{FailureReason, redo_dispatch_failed, classify_failure}
use lv_fixus.Registry.{completed}
use lv_fixus.Retry
use lv_fixus.Retry.{RetryDecision, retry, decide}
use lv_fixus.Service.{complete_turn}
use lv_fixus.Store.{Action, return, ◌>>=◌, ◌>>◌}
use lv_fixus.Orchestrator.{Env, Orchestrator, lift, attempt, modify, turn_key, resolve_task_type}
use lv_fixus.Orchestrator.Dispatch.{get_cached_llm_responses, dispatch_with_retry}
use lv_fixus.Orchestrator.Turns.{
  forget_retries, record_turn_terminal, respond, fail_task_with_reason, release_slot_and_redispatch,
}

module _ (E : Env) where
  open E use {j, b, render, S, store, texts, retry_policy, now}

  abbrev O : Type 0
  O = Orchestrator S

  unfoldable pub handle_turn_execution_done : String → ℤ → String → Action O (Unit {0})
  handle_turn_execution_done task_id turn_id final_output = do
    written ← lift (complete_turn j b store now task_id turn_id final_output)
    modify (forget_retries E task_id turn_id)
    record_turn_terminal E task_id turn_id
    modify (release_slot_and_redispatch E task_id)
    events ← lift (store.get_turn_events task_id turn_id)
    modify (respond E task_id (completed final_output turn_id (pos (length events))))

  -- the retries of the turn so far
  abbrev pub retries_of : String → ℤ → O → ℤ
  retries_of task_id turn_id o =
      unwrap_or (pos 0) (get (turn_key texts task_id turn_id) o.retry_attempts)

  -- the counter after a decision
  abbrev pub counted : String → ℤ → ℤ → RetryDecision → O → O
  counted task_id turn_id current (retry reason next) o = record o {
    retry_attempts =
        insert (turn_key texts task_id turn_id) (add_i32 current (pos 1)) o.retry_attempts;
  }
  counted task_id turn_id current (Retry.fail reason exhausted) o =
      forget_retries E task_id turn_id o

  -- a turn that is tried again keeps its slot
  abbrev pub end_or_retry :
      String → ℤ → String → String → String → String → RetryDecision → Action O (Unit {0})
  end_or_retry task_id turn_id error_type error_message user_input redo_group (retry reason next) =
      do
        resolved ← attempt (resolve_task_type E task_id)
        cached ← get_cached_llm_responses E task_id turn_id
        sent ← attempt (dispatch_with_retry E task_id turn_id user_input redo_group next cached)
        elim sent [
          | ok u ↦ return tt
          | err e ↦
              fail_task_with_reason E task_id turn_id redo_dispatch_failed "redo_dispatch_failed"
                (texts.error e)
              >> return tt
        ]
  end_or_retry task_id turn_id error_type error_message user_input redo_group
        (Retry.fail reason exhausted) =
      do
        outcome ← fail_task_with_reason E task_id turn_id reason error_type error_message
        modify (release_slot_and_redispatch E task_id)

  abbrev pub decided : String → ℤ → FailureReason → O → RetryDecision
  decided task_id turn_id reason o = decide retry_policy reason (retries_of task_id turn_id o)

  abbrev pub after_error :
      String → ℤ → String → String → Option (AgentEvent j.Value) → Action O (Unit {0})
  after_error task_id turn_id error_type error_message none o =
      (fail_task_with_reason E task_id turn_id (classify_failure error_type error_message)
            error_type error_message
          >> return tt)
        o
  after_error task_id turn_id error_type error_message (some started) o =
      let reason = classify_failure error_type error_message in
      let decision = decided task_id turn_id reason o in
      end_or_retry task_id turn_id error_type error_message
        (unwrap_or "" (str_at j render started.payload "user_input"))
        (unwrap_or "unknown" (str_at j render started.payload "redo_group")) decision
        (counted task_id turn_id (retries_of task_id turn_id o) decision o)

  unfoldable pub handle_turn_execution_error : String → ℤ → String → String → Action O (Unit {0})
  handle_turn_execution_error task_id turn_id error_type error_message = do
    events ← lift (store.get_turn_events task_id turn_id)
    after_error task_id turn_id error_type error_message
        (find (λ e. is_turn_started e.event_type) events)
