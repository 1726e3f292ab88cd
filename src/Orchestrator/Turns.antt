-- ===== src/Orchestrator/Turns.antt =====
-- The end of a turn and the turn that takes its slot, src/orchestrator.rs.
use Prim.Native.String.{◌++◌ as concat}
use lv_fixus.Common.{String, Option, none, some, ℕ, zero, suc, List, string_eq}
use lv_fixus.Common.Int.{ℤ, pos}
use lv_fixus.Common.Map.{insert, remove}
use lv_fixus.Dispatcher.{QueuedTurn, enqueue, try_pop, on_turn_terminal, pending_count}
use lv_fixus.Error.{Result, ok, err}
use lv_fixus.Models.Failure
use lv_fixus.Models.Failure.{FailureReason, redo_dispatch_failed, classify_failure}
use lv_fixus.Models.Records.{Task}
use lv_fixus.Registry.{TurnOutcome, failed, complete_pending_turn}
use lv_fixus.Service.{fail_turn, fail_task}
use lv_fixus.Store.{Action, return, ◌>>=◌, ◌>>◌}
use lv_fixus.Orchestrator.{Env, Orchestrator, lift, attempt, modify, turn_key, resolve_task_type}
use lv_fixus.Orchestrator.Dispatch.{dispatch_with_retry}

module _ (E : Env) where
  open E use {j, b, S, store, texts, now}

  abbrev O : Type 0
  O = Orchestrator S

  abbrev pub forget_retries : String → ℤ → O → O
  forget_retries task_id turn_id o = record o {
    retry_attempts = remove (turn_key texts task_id turn_id) o.retry_attempts;
  }

  abbrev pub forget_dispatch : String → ℤ → O → O
  forget_dispatch task_id turn_id o = record o {
    dispatch_times = remove (turn_key texts task_id turn_id) o.dispatch_times;
  }

  -- what `record_turn_terminal_metric` does besides its metric; it never fails
  unfoldable pub record_turn_terminal : String → ℤ → Action O (Unit {0})
  record_turn_terminal task_id turn_id = do
    modify (forget_dispatch task_id turn_id)
    resolved ← attempt (resolve_task_type E task_id)
    return tt

  -- the waiting call is answered, if there is one
  abbrev pub respond : String → TurnOutcome → O → O
  respond task_id outcome o = record o {
    registry = (complete_pending_turn o.registry task_id outcome).0;
  }

  unfoldable pub fail_task_with_reason :
      String → ℤ → FailureReason → String → String → Action O TurnOutcome
  fail_task_with_reason task_id turn_id reason error_type error_message = do
    modify (forget_retries task_id turn_id)
    record_turn_terminal task_id turn_id
    written ←
        attempt (
          lift
            (fail_turn j b store now task_id turn_id error_type error_message none (some reason)))
    moved ← attempt (
        lift (
          fail_task j b store now task_id (concat (Failure.as_str reason) (concat ": " error_type))
            (some reason)))
    modify (respond task_id (failed turn_id error_type error_message))
    return (failed turn_id error_type error_message)

  -- the turn that `dispatch_pending` has taken from the queue goes out, or it ends
  abbrev pub settle : QueuedTurn → O × Result (Unit {0}) → O
  settle turn (o, ok u) = o
  settle turn (o, err e) =
      (fail_task_with_reason turn.task_id turn.turn_id redo_dispatch_failed "redo_dispatch_failed"
        (texts.error e) (record o { dispatcher = on_turn_terminal o.dispatcher turn.task_type })).0

  unfoldable pub dispatch_popped : QueuedTurn → O → O
  dispatch_popped turn o = settle turn (
      dispatch_with_retry E turn.task_id turn.turn_id turn.user_input turn.redo_group
        turn.redo_count turn.cached_llm
        (record o {
          dispatch_times = insert (turn_key texts turn.task_id turn.turn_id) now o.dispatch_times;
        }))

  -- up to `n` rounds of the loop
  unfoldable pub dispatch_turns : ℕ → String → O → O
  dispatch_turns zero task_type o = o
  dispatch_turns (suc n) task_type o =
      let (d, popped) = try_pop o.dispatcher task_type in
      elim popped [
        | none ↦ record o { dispatcher = d }
        | some turn ↦
            dispatch_turns n task_type (dispatch_popped turn (record o { dispatcher = d }))
      ]

  unfoldable pub dispatch_pending : String → O → O
  dispatch_pending task_type o = dispatch_turns (pending_count o.dispatcher task_type) task_type o

  abbrev pub release_of : O × Result String → O
  release_of (o, ok task_type) =
      dispatch_pending task_type (record o { dispatcher = on_turn_terminal o.dispatcher task_type })
  release_of (o, err e) = o

  unfoldable pub release_slot_and_redispatch : String → O → O
  release_slot_and_redispatch task_id o = release_of (resolve_task_type E task_id o)

  unfoldable pub fail_turn_and_respond : String → ℤ → String → String → Action O TurnOutcome
  fail_turn_and_respond task_id turn_id error_type error_message = do
    outcome ←
        fail_task_with_reason task_id turn_id (classify_failure error_type error_message) error_type
          error_message
    modify (release_slot_and_redispatch task_id)
    return outcome

  abbrev pub priority_of : Option (Task j.Value) → ℤ
  priority_of none = pos 0
  priority_of (some t) = t.priority

  abbrev pub queued_turn :
      String → ℤ → String → String → ℤ → List String → String → Option (Task j.Value) → QueuedTurn
  queued_turn task_id turn_id user_input redo_group redo_count cached task_type read = record {
    task_type = task_type;
    task_id = task_id;
    turn_id = turn_id;
    user_input = user_input;
    redo_group = redo_group;
    redo_count = redo_count;
    cached_llm = cached;
    priority = priority_of read;
    enqueued_at = now;
  }

  unfoldable pub enqueue_and_dispatch :
      String → ℤ → String → String → ℤ → List String → Action O (Unit {0})
  enqueue_and_dispatch task_id turn_id user_input redo_group redo_count cached = do
    task_type ← resolve_task_type E task_id
    read ← lift (store.get_task task_id)
    let turn = queued_turn task_id turn_id user_input redo_group redo_count cached task_type read
    modify (λ o. record o { dispatcher = (enqueue o.dispatcher turn).0 })
    modify (dispatch_pending task_type)
