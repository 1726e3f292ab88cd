-- ===== src/Recovery.antt =====
-- src/recovery.rs: what to do after a crash with the turns that have begun and not ended.
pub mod Decide
pub mod Redo
use Prim.Native.String.{◌++◌ as concat}
use lv_fixus.Common.{
  String, Bool, true, false, Option, none, some, ℕ, List, [], ◌∷◌, ◌++◌, if◌then◌else◌, unwrap_or,
  opt_bind, any, filter, find, length, ◌==◌, string_eq,
}
use lv_fixus.Common.Int.{ℤ, pos, add_i32, int_eq}
use lv_fixus.Json.{Json, Build}
use lv_fixus.Models.EventType.{EventType, is_turn_started}
use lv_fixus.Models.Event.{AgentEvent}
use lv_fixus.Models.Failure.{application_error}
use lv_fixus.Models.Records.{IncompleteTurn, IncompleteStep}
use lv_fixus.Store.{EventStore, Action, return, ◌>>=◌, ◌>>◌}
use lv_fixus.Service.{fail_turn}
use lv_fixus.Service.Steps.{record_tool_failed}

pub data ToolRecoveryStrategy : Type 0 where
  read_only idempotent_write non_idempotent_write : ToolRecoveryStrategy

abbrev pub read_only_tools : List String
read_only_tools =
    "get_weather" ∷ "search" ∷ "read_file" ∷ "list_directory" ∷ "get_order_status"
    ∷ "query_database" ∷ "fetch_url" ∷ "calculate" ∷ "parse" ∷ []

abbrev pub idempotent_tools : List String
idempotent_tools =
    "update_config" ∷ "set_status" ∷ "upsert_record" ∷ "create_or_update" ∷ "deploy_versioned" ∷ []

abbrev pub non_idempotent_tools : List String
non_idempotent_tools =
    "send_email" ∷ "create_order" ∷ "process_payment" ∷ "send_notification" ∷ "delete_record"
    ∷ "submit_form" ∷ []

-- `slice.contains(&name)`
abbrev pub listed : List String → String → Bool
listed tools name = any (λ tool. tool == name) tools

unfoldable pub classify_tool : String → ToolRecoveryStrategy
classify_tool tool_name =
    if listed read_only_tools tool_name
    then read_only
    else if listed idempotent_tools tool_name
    then idempotent_write
    else if listed non_idempotent_tools tool_name
    then non_idempotent_write
    else non_idempotent_write

abbrev pub is_unsafe : ToolRecoveryStrategy → Bool
is_unsafe non_idempotent_write = true
is_unsafe _ = false

pub data RecoveryDecision (V : Type 0) : Type 0 where
  -- turn_id, redo_group, redo_count, incomplete_steps
  safe_to_redo : ℤ → String → ℤ → List (IncompleteStep V) → RecoveryDecision V
  -- turn_id, redo_group, blocking_steps
  requires_human_intervention : ℤ → String → List (IncompleteStep V) → RecoveryDecision V
  no_recovery : RecoveryDecision V

pub record RedoContext : Type 0 where
  pub task_id : String
  pub turn_id : ℤ
  pub redo_group : String
  pub redo_count : ℤ  -- i32
  pub user_input : String

module _ (j : Json) where
  -- `payload.get(key).and_then(as_str)`
  abbrev pub text_of : j.Value → String → Option String
  text_of v key = opt_bind (j.get v key) j.as_str

  abbrev pub step_is_unsafe : IncompleteStep j.Value → Bool
  step_is_unsafe step =
      is_unsafe (classify_tool (unwrap_or "unknown" (text_of step.payload "tool_name")))

  abbrev decided :
      IncompleteTurn
      → List (IncompleteStep j.Value)
      → List (IncompleteStep j.Value)
      → RecoveryDecision j.Value
  decided turn [] safe = safe_to_redo turn.turn_id turn.redo_group turn.redo_count safe
  decided turn (b ∷ blocking) safe =
      requires_human_intervention turn.turn_id turn.redo_group (b ∷ blocking)

  -- the loop over the steps; `blocking` and `safe` are the vectors that it pushes to
  abbrev sort_steps :
      IncompleteTurn
      → List (IncompleteStep j.Value)
      → List (IncompleteStep j.Value)
      → List (IncompleteStep j.Value)
      → RecoveryDecision j.Value
  sort_steps turn [] blocking safe = decided turn blocking safe
  sort_steps turn (step ∷ steps) blocking safe =
      let unsafe_case = sort_steps turn steps (blocking ++ (step ∷ [])) safe in
      let safe_case = sort_steps turn steps blocking (safe ++ (step ∷ [])) in
      if step_is_unsafe step then unsafe_case else safe_case

  unfoldable pub decide_recovery_from_steps :
      IncompleteTurn → List (IncompleteStep j.Value) → RecoveryDecision j.Value
  decide_recovery_from_steps turn [] = safe_to_redo turn.turn_id turn.redo_group turn.redo_count []
  decide_recovery_from_steps turn (step ∷ steps) = sort_steps turn (step ∷ steps) [] []

  abbrev pub redo_of : String → IncompleteTurn → Option (AgentEvent j.Value) → Option RedoContext
  redo_of task_id turn none = none
  redo_of task_id turn (some started) = some record {
    task_id = task_id;
    turn_id = turn.turn_id;
    redo_group = turn.redo_group;
    redo_count = add_i32 turn.redo_count (pos 1);
    user_input = unwrap_or "" (text_of started.payload "user_input");
  }

  unfoldable pub build_redo_context_from_events :
      String → IncompleteTurn → List (AgentEvent j.Value) → Option RedoContext
  build_redo_context_from_events task_id turn events =
      redo_of task_id turn (find (λ e. is_turn_started e.event_type) events)

  module _ {S : Type 0} (store : EventStore j.Value S) where
    unfoldable pub decide_turn_recovery :
        String → IncompleteTurn → Action S (RecoveryDecision j.Value)
    decide_turn_recovery task_id turn = do
      turn_events ← store.get_turn_events task_id turn.turn_id
      all_incomplete ← store.get_incomplete_steps task_id
      return
          (decide_recovery_from_steps turn (filter (λ s. s.turn_id == turn.turn_id) all_incomplete))

    unfoldable pub build_redo_context : String → IncompleteTurn → Action S (Option RedoContext)
    build_redo_context task_id turn = do
      events ← store.get_turn_events task_id turn.turn_id
      return (build_redo_context_from_events task_id turn events)

    -- `display` prints a `usize`
    module _ (b : Build j) (now : ℕ) (display : ℕ → String) where
      abbrev skipped_message : String → String
      skipped_message tool =
          concat "Recovery skipped: non-idempotent tool '"
            (concat tool "' had an in-flight step at crash time. Requires human review.")

      abbrev blocked_message : ℕ → String
      blocked_message n =
          concat "Recovery blocked: "
            (concat (display n) " non-idempotent step(s) require human intervention")

      unfoldable pub skip_non_idempotent_step :
          String → ℤ → IncompleteStep j.Value → Action S (AgentEvent j.Value)
      skip_non_idempotent_step task_id turn_id step =
          record_tool_failed j b store now task_id (some turn_id) step.step_id
            (unwrap_or "unknown" (text_of step.payload "tool_call_id"))
            "recovery_skipped_non_idempotent"
            (skipped_message (unwrap_or "unknown" (text_of step.payload "tool_name")))
            (some application_error) (pos 1) (pos 0)

      unfoldable pub skip_steps : String → ℤ → List (IncompleteStep j.Value) → Action S (Unit {0})
      skip_steps task_id turn_id [] = return tt
      skip_steps task_id turn_id (step ∷ steps) = do
        skip_non_idempotent_step task_id turn_id step
        skip_steps task_id turn_id steps

      unfoldable pub fail_turn_with_non_idempotent_block :
          String → ℤ → List (IncompleteStep j.Value) → Action S (Unit {0})
      fail_turn_with_non_idempotent_block task_id turn_id blocking_steps = do
        skip_steps task_id turn_id blocking_steps
        fail_turn j b store now task_id turn_id "recovery_blocked"
            (blocked_message (length blocking_steps)) none (some application_error)
        return tt

      abbrev pub push_redo : Option RedoContext → List RedoContext → List RedoContext
      push_redo none redo_queue = redo_queue
      push_redo (some c) redo_queue = redo_queue ++ (c ∷ [])

      -- the `match` on a decision; `redo_queue` is the vector that it may push to
      abbrev pub act_on :
          String
          → IncompleteTurn
          → List RedoContext
          → RecoveryDecision j.Value
          → Action S (List RedoContext)
      act_on task_id turn redo_queue (safe_to_redo turn_id group n steps) = do
        c ← build_redo_context task_id turn
        return (push_redo c redo_queue)
      act_on task_id turn redo_queue (requires_human_intervention turn_id group blocking) = do
        fail_turn_with_non_idempotent_block task_id turn_id blocking
        return redo_queue
      act_on task_id turn redo_queue no_recovery = return redo_queue

      unfoldable pub recover_turns :
          String → List RedoContext → List IncompleteTurn → Action S (List RedoContext)
      recover_turns task_id redo_queue [] = return redo_queue
      recover_turns task_id redo_queue (turn ∷ turns) = do
        decision ← decide_turn_recovery task_id turn
        queue ← act_on task_id turn redo_queue decision
        recover_turns task_id queue turns

      -- no turns: the loop has no round, and the result is the empty queue
      unfoldable pub recover_task : String → Action S (List RedoContext)
      recover_task task_id = do
        turns ← store.get_incomplete_turns task_id
        recover_turns task_id [] turns
