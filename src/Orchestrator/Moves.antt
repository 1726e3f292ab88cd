-- ===== src/Orchestrator/Moves.antt =====
-- The operations of src/orchestrator.rs on the shared state, one after the other.
use lv_fixus.Common.{
  String, Option, none, some, ℕ, zero, suc, List, ◌≡◌, refl, string_eq, inl, inr, ◌⊎◌,
}
use lv_fixus.Common.Int.{ℤ}
use lv_fixus.Dispatcher
use lv_fixus.Dispatcher.{
  QueuedTurn, call_try_pop, call_terminal, call_enqueue, try_pop, on_turn_terminal, enqueue,
}
use lv_fixus.Registry
use lv_fixus.Registry.{TurnOutcome, failed, complete_pending_turn}
use lv_fixus.Error.{Result, ok, err}
use lv_fixus.Models.Failure.{FailureReason, redo_dispatch_failed, classify_failure}
use lv_fixus.Orchestrator.{Env, Orchestrator, lift, resolve_task_type}
use lv_fixus.Orchestrator.Dispatch.{get_cached_llm_responses, dispatch_with_retry}
use lv_fixus.Orchestrator.Turns.{
  queued_turn, record_turn_terminal, respond, fail_task_with_reason, settle, dispatch_popped,
  dispatch_turns, dispatch_pending, release_of, release_slot_and_redispatch, fail_turn_and_respond,
  enqueue_and_dispatch,
}
use lv_fixus.Orchestrator.Steady.{IsSteady, resolve-R, cached-R, retry-R, terminal-R, fail-R}
use lv_fixus.Orchestrator.Drives.{
  Advances, Moves, stays, go_on, after-Advances, stored, answers_once, calls_once,
}

pub Option-cases : {A : Type 0} (o : Option A) → (o ≡ none) ⊎ ((a : A) × (o ≡ some a))
Option-cases none = inl refl
Option-cases (some a) = inr (a, refl)

pub Advances-IsSteady : {S : Type 0} → IsSteady {S = S} Advances
unfolding Registry.step
Advances-IsSteady = record {
  same = stays;
  next = go_on;
  answer = λ task_id outcome o. answers_once o task_id outcome _ refl;
}

module _ (E : Env) where
  open E use {j, S, store, texts}

  abbrev O : Type 0
  O = Orchestrator S

  pub resolve-Moves : (task_id : String) → Moves (resolve_task_type E task_id)
  resolve-Moves task_id = resolve-R E Advances-IsSteady task_id

  pub cached-Moves :
      (task_id : String) (turn_id : ℤ) → Moves (get_cached_llm_responses E task_id turn_id)
  cached-Moves task_id turn_id = cached-R E Advances-IsSteady task_id turn_id

  pub retry-Moves :
      (task_id : String) (turn_id : ℤ) (input group : String) (count : ℤ) (cached : List String)
      → Moves (dispatch_with_retry E task_id turn_id input group count cached)
  retry-Moves task_id turn_id input group count cached =
      retry-R E Advances-IsSteady task_id turn_id input group count cached

  pub terminal-Moves :
      (task_id : String) (turn_id : ℤ) → Moves (record_turn_terminal E task_id turn_id)
  terminal-Moves task_id turn_id = terminal-R E Advances-IsSteady task_id turn_id

  pub respond-Advances :
      (task_id : String) (outcome : TurnOutcome) (o : O) → Advances o (respond E task_id outcome o)
  respond-Advances task_id outcome o = Advances-IsSteady.answer task_id outcome o

  pub fail-Moves :
      (task_id : String) (turn_id : ℤ) (reason : FailureReason) (error_type message : String)
      → Moves (fail_task_with_reason E task_id turn_id reason error_type message)
  fail-Moves task_id turn_id reason error_type message =
      fail-R E Advances-IsSteady task_id turn_id reason error_type message

  settle-Advances :
      (turn : QueuedTurn) (r : O × Result (Unit {0})) {o : O}
      → Advances o r.0
      → Advances o (settle E turn r)
  unfolding Dispatcher.step
  settle-Advances turn (o', ok u) p = p
  settle-Advances turn (o', err e) p = go_on p (
      go_on (calls_once o' (call_terminal turn.task_type) _ refl) (
        fail-Moves turn.task_id turn.turn_id redo_dispatch_failed "redo_dispatch_failed"
          (texts.error e) _))

  popped-Advances : (turn : QueuedTurn) (o : O) → Advances o (dispatch_popped E turn o)
  unfolding dispatch_popped
  popped-Advances turn o = settle-Advances turn _ (
      go_on (stays refl refl refl) (
        retry-Moves turn.task_id turn.turn_id turn.user_input turn.redo_group turn.redo_count
          turn.cached_llm _))

  turns-Advances :
      (n : ℕ) (task_type : String) (o : O) → Advances o (dispatch_turns E n task_type o)
  unfolding dispatch_turns Dispatcher.step
  turns-Advances zero task_type o = stays refl refl refl
  turns-Advances (suc n) task_type o =
      let d = (try_pop o.dispatcher task_type).0 in
      let p = calls_once o (call_try_pop task_type) d refl in
      elim (Option-cases (try_pop o.dispatcher task_type).1) [
        | inl e ↦ rw (e, dispatch_turns) p
        | inr (turn, e) ↦
            rw (e, dispatch_turns)
              (go_on p (
                go_on (popped-Advances turn (record o { dispatcher = d }))
                  (turns-Advances n task_type _)))
      ]

  pub pending-Advances : (task_type : String) (o : O) → Advances o (dispatch_pending E task_type o)
  unfolding dispatch_pending
  pending-Advances task_type o = turns-Advances _ task_type o

  release_of-Advances :
      (r : O × Result String) {o : O} → Advances o r.0 → Advances o (release_of E r)
  unfolding Dispatcher.step
  release_of-Advances (o', ok kind) p =
      go_on p (go_on (calls_once o' (call_terminal kind) _ refl) (pending-Advances kind _))
  release_of-Advances (o', err e) p = p

  pub release-Advances :
      (task_id : String) (o : O) → Advances o (release_slot_and_redispatch E task_id o)
  unfolding release_slot_and_redispatch
  release-Advances task_id o = release_of-Advances _ (resolve-Moves task_id o)

  pub fail_and_respond-Moves :
      (task_id : String) (turn_id : ℤ) (error_type message : String)
      → Moves (fail_turn_and_respond E task_id turn_id error_type message)
  unfolding fail_turn_and_respond
  fail_and_respond-Moves task_id turn_id error_type message o =
      after-Advances
        (fail_task_with_reason E task_id turn_id (classify_failure error_type message) error_type
          message o)
        _ (fail-Moves task_id turn_id _ error_type message o)
        (λ outcome. λ o1. release-Advances task_id o1)

  pub enqueue-Moves :
      (task_id : String) (turn_id : ℤ) (input group : String) (count : ℤ) (cached : List String)
      → Moves (enqueue_and_dispatch E task_id turn_id input group count cached)
  unfolding enqueue_and_dispatch Dispatcher.step
  enqueue-Moves task_id turn_id input group count cached o =
      after-Advances (resolve_task_type E task_id o) _ (resolve-Moves task_id o) (λ kind. λ o1.
        after-Advances (lift (store.get_task task_id) o1) _
          (stored (store.get_task task_id o1.store))
          (λ read. λ o2.
            go_on
              (calls_once o2
                (call_enqueue (queued_turn E task_id turn_id input group count cached kind read)) _
                refl)
              (pending-Advances kind _)))
