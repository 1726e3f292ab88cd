-- ===== src/Orchestrator/Dispatch.antt =====
-- A turn on its way to an agent: dispatch_execute_turn and dispatch_with_retry of src/orchestrator.rs.
use Prim.Native.String.{◌++◌ as concat}
use lv_fixus.Common.{String, Option, none, some, ℕ, zero, suc, List, [], ◌∷◌, ◌++◌, unwrap_or}
use lv_fixus.Common.Int.{ℤ, pos, pos_part, max_ℤ}
use lv_fixus.Context.{LlmContext, build_llm_context, str_at}
use lv_fixus.Error.{Result, ok, err, AppError, protocol}
use lv_fixus.Models.Event.{AgentEvent}
use lv_fixus.Models.EventType.{EventType, llm_completed}
use lv_fixus.Models.Records.{Task}
use lv_fixus.Policy.{EffectivePolicy}
use lv_fixus.Store.{Action, return, fail, ◌>>=◌}
use lv_fixus.Orchestrator.{Env, Orchestrator, lift, attempt, resolve_task_type}
use lv_fixus.Orchestrator.Payload.{build_turn_begin_payload, input_with_cache}

-- `map_err`
abbrev mapped : {S : Type 0} → {A : Type 0} → (AppError → AppError) → S × Result A → S × Result A
mapped f (s, ok a) = (s, ok a)
mapped f (s, err e) = (s, err (f e))

module _ (E : Env) where
  open E use {j, b, render, S, store, texts, retry_policy}

  -- a task that cannot be read has no policy
  abbrev pub policy_of : Result (Option (Task j.Value)) → Option EffectivePolicy
  policy_of (ok (some t)) = t.effective_policy
  policy_of (ok none) = none
  policy_of (err e) = none

  unfoldable pub dispatch_execute_turn_with_ctx :
      String
      → ℤ
      → String
      → String
      → ℤ
      → List String
      → LlmContext
      → Action (Orchestrator S) (Unit {0})
  dispatch_execute_turn_with_ctx task_id turn_id user_input redo_group redo_count cached ctx = do
    read ← attempt (lift (store.get_task task_id))
    let msg =
        build_turn_begin_payload j b texts task_id turn_id
          (input_with_cache j b texts cached user_input) ctx.summary ctx.messages redo_group
          redo_count (policy_of read)
    task_type ← resolve_task_type E task_id
    lift (λ s.
        mapped
          (λ e. protocol (
            concat "Failed to publish turn.begin to task-begin-" (
              concat task_type
                (concat " for task " (concat task_id (concat ": " (texts.error e)))))))
          (store.publish_turn_begin task_id task_type msg s))

  unfoldable pub dispatch_execute_turn :
      String → ℤ → String → String → ℤ → List String → Action (Orchestrator S) (Unit {0})
  dispatch_execute_turn task_id turn_id user_input redo_group redo_count cached = do
    ctx ← lift (build_llm_context j render store task_id)
    dispatch_execute_turn_with_ctx task_id turn_id user_input redo_group redo_count cached ctx

  abbrev answer_of : EventType → j.Value → List String
  answer_of llm_completed payload = elim (str_at j render payload "content") [
    | none ↦ []
    | some s ↦ s ∷ []
  ]
  answer_of _ payload = []

  abbrev pub answers_of : List (AgentEvent j.Value) → List String
  answers_of [] = []
  answers_of (e ∷ es) = answer_of e.event_type e.payload ++ answers_of es

  abbrev answers_or_none : Result (List (AgentEvent j.Value)) → List String
  answers_or_none (ok events) = answers_of events
  answers_or_none (err e) = []

  -- never fails
  unfoldable pub get_cached_llm_responses : String → ℤ → Action (Orchestrator S) (List String)
  get_cached_llm_responses task_id turn_id = do
    read ← attempt (lift (store.get_turn_events task_id turn_id))
    return (answers_or_none read)

  abbrev max_dispatches : ℤ
  max_dispatches = max_ℤ retry_policy.max_attempts (pos 1)

  -- the loop: how many rounds are left, and the error of the last one
  unfoldable pub dispatch_rounds :
      Action (Orchestrator S) (Unit {0}) → ℕ → Option String → Action (Orchestrator S) (Unit {0})
  dispatch_rounds dispatch zero last_err = fail (
      protocol (
        concat "dispatch failed after "
          (concat (texts.i64 max_dispatches) (concat " attempts: " (unwrap_or "" last_err)))))
  dispatch_rounds dispatch (suc n) last_err = do
    done ← attempt dispatch
    elim done [ ok u ↦ return tt | err e ↦ dispatch_rounds dispatch n (some (texts.error e)) ]

  unfoldable pub dispatch_with_retry :
      String → ℤ → String → String → ℤ → List String → Action (Orchestrator S) (Unit {0})
  dispatch_with_retry task_id turn_id user_input redo_group redo_count cached =
      dispatch_rounds
        (dispatch_execute_turn task_id turn_id user_input redo_group redo_count cached)
        (pos_part max_dispatches) none
