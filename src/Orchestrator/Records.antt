-- ===== src/Orchestrator/Records.antt =====
-- The records of the stream `task-end` and the watchdog of src/orchestrator.rs on the shared state.
use lv_fixus.Common.{
  String, Bool, true, false, Option, none, some, ℕ, List, [], ◌∷◌, refl, ◌==◌, string_eq,
  if◌then◌else◌, Bool-cases, inl, inr, unwrap_or, map,
}
use lv_fixus.Common.Int.{ℤ, pos}
use lv_fixus.Common.Literal.{match_str}
use lv_fixus.Models.Records.{Message}
use lv_fixus.Service.Steps.{
  record_event, record_llm_invoked, record_llm_failed, record_tool_invoked, record_tool_completed,
  record_tool_failed,
}
use lv_fixus.Orchestrator.Payload.{message_value}
use lv_fixus.Store.{Action, return, after}
use lv_fixus.Orchestrator.{Env, Orchestrator, lift}
use lv_fixus.Orchestrator.Steps.{
  Readings, TaskEnd, handle_llm_completed, handle_tool_invoked, handle_tool_completed,
  handle_tool_failed, handle_llm_invoked, handle_llm_failed, text, handlers, handle_event,
  handle_record,
}
use lv_fixus.Orchestrator.Watchdog.{
  parse_turn_key, reclaim_parsed, reclaim_turns, reclaim_stale_turns, stale_turns,
}
use lv_fixus.Orchestrator.Drives.{Advances, Moves, stays, go_on, after-Advances, stored}
use lv_fixus.Orchestrator.Moves.{resolve-Moves}
use lv_fixus.Orchestrator.Events.{done-Moves, error-Moves}

module _ {S : Type 0} where
  -- each action of a match only moves the shared state
  abbrev ArmsMove : List (String × Action (Orchestrator S) (Unit {0})) → Type 0
  ArmsMove [] = Unit
  ArmsMove ((lit, m) ∷ arms) = Moves m × ArmsMove arms

  arms-Moves :
      (arms : List (String × Action (Orchestrator S) (Unit {0}))) (s : String)
      → ArmsMove arms
      → Moves (unwrap_or (return tt) (match_str arms s))
  arms-Moves [] s h o = stays refl refl refl
  arms-Moves ((lit, m) ∷ arms) s h o = elim (Bool-cases (lit == s)) [
    | inl e ↦ rw e (h.0 o)
    | inr e ↦ rw e (arms-Moves arms s h.1 o)
  ]

  guarded-Moves :
      (c : Bool) (m : Action (Orchestrator S) (Unit {0}))
      → Moves m
      → Moves (if c then return tt else m)
  guarded-Moves true m h o = stays refl refl refl
  guarded-Moves false m h o = h o

  written-Moves : {A : Type 0} (m : Action S A) → Moves (λ o. after (lift m o) (λ a. return tt))
  written-Moves m o =
      after-Advances (lift m o) _ (stored (m o.store)) (λ a. λ o1. stays refl refl refl)

module _ (E : Env) where
  open E use {j, b, S, store, now}

  abbrev O : Type 0
  O = Orchestrator S

  llm_completed-Moves :
      (task_id : String) (turn_id : ℤ) (step_id model : String) (x y z seq : ℤ)
      → Moves (handle_llm_completed E task_id turn_id step_id model x y z seq)
  unfolding handle_llm_completed record_event
  llm_completed-Moves task_id turn_id step_id model x y z seq o =
      after-Advances (lift (store.write_event _) o) _ (stored (store.write_event _ o.store))
        (λ s. λ o1. resolve-Moves E task_id o1)

  module _ (task_id : String) (turn_id : Option ℤ) (step_id : String) (seq : ℤ) where
    tool_invoked-Moves :
        (name call key : String) (input : j.Value)
        → Moves (handle_tool_invoked E task_id turn_id step_id name call key input seq)
    unfolding handle_tool_invoked
    tool_invoked-Moves name call key input = written-Moves (
        record_tool_invoked j b store now task_id turn_id step_id name call key input none seq none
          none)

    tool_completed-Moves :
        (call : String) (output : j.Value) (is_error : Bool)
        → Moves (handle_tool_completed E task_id turn_id step_id call output is_error seq)
    unfolding handle_tool_completed
    tool_completed-Moves call output is_error =
        written-Moves
          (record_tool_completed j b store now task_id turn_id step_id call output is_error seq)

    tool_failed-Moves :
        (call error_type message : String)
        → Moves (handle_tool_failed E task_id turn_id step_id call error_type message seq)
    unfolding handle_tool_failed
    tool_failed-Moves call error_type message = written-Moves (
        record_tool_failed j b store now task_id turn_id step_id call error_type message none
          (pos 0) seq)

    llm_invoked-Moves :
        (model : String) (messages : List Message)
        → Moves (handle_llm_invoked E task_id turn_id step_id model messages seq)
    unfolding handle_llm_invoked
    llm_invoked-Moves model messages = written-Moves (
        record_llm_invoked j b store now task_id turn_id step_id model
          (b.array (map (message_value j b E.texts) messages)) none none seq)

    llm_failed-Moves :
        (error_type message : String)
        → Moves (handle_llm_failed E task_id turn_id step_id error_type message seq)
    unfolding handle_llm_failed
    llm_failed-Moves error_type message = written-Moves (
        record_llm_failed j b store now task_id turn_id step_id error_type message none (pos 0) seq)

  module _ (r : Readings j.Value) where
    event-Moves : (kind task_id : String) (p : j.Value) → Moves (handle_event E r kind task_id p)
    event-Moves kind task_id p = arms-Moves (handlers E r task_id p) kind (
      guarded-Moves _ _ (done-Moves E task_id _ _),
      (
        guarded-Moves _ _ (llm_completed-Moves task_id _ _ _ _ _ _ _),
        (
          guarded-Moves _ _ (error-Moves E task_id _ _ _),
          (
            guarded-Moves _ _ (tool_invoked-Moves task_id _ _ _ _ _ _ _),
            (
              guarded-Moves _ _ (tool_completed-Moves task_id _ _ _ _ _ _),
              (
                guarded-Moves _ _ (tool_failed-Moves task_id _ _ _ _ _ _),
                (
                  guarded-Moves _ _ (llm_invoked-Moves task_id _ _ _ _ _),
                  (guarded-Moves _ _ (llm_failed-Moves task_id _ _ _ _ _), tt),
                ),
              ),
            ),
          ),
        ),
      ),
    )

    pub record-Advances : (rec : TaskEnd j.Value) (o : O) → Advances o (handle_record E r rec o)
    unfolding handle_record
    record-Advances rec o = elim (Bool-cases (text E rec.payload "task_id" "" == "")) [
      | inl e ↦ rw e (stays refl refl refl)
      | inr e ↦ rw e (event-Moves rec.event_type _ rec.payload o)
    ]

  parsed-Moves : (key : String) (k : Option (String × ℤ)) → Moves (reclaim_parsed E key k)
  parsed-Moves key none o = stays refl refl refl
  parsed-Moves key (some (task_id, turn_id)) o =
      go_on (resolve-Moves E task_id o)
        (go_on (stays refl refl refl) (error-Moves E task_id turn_id _ _ _))

  reclaim_turns-Advances : (keys : List String) (o : O) → Advances o (reclaim_turns E keys o)
  unfolding reclaim_turns
  reclaim_turns-Advances [] o = stays refl refl refl
  reclaim_turns-Advances (key ∷ keys) o =
      go_on (parsed-Moves key (parse_turn_key E.texts key) o) (reclaim_turns-Advances keys _)

  pub reclaim-Advances : (lease : ℕ) (o : O) → Advances o (reclaim_stale_turns E lease o).0
  unfolding reclaim_stale_turns
  reclaim-Advances lease o = reclaim_turns-Advances (stale_turns E lease o) o
