-- ===== src/Orchestrator/Slots.antt =====
-- The slot of a turn whose agent reports an error, src/orchestrator.rs.
use lv_fixus.Common.{String, Option, none, some, List, ◌≡◌, refl, ◌∙◌, arith, ◌⊎◌, inl, inr, find}
use lv_fixus.Common.Int.{ℤ}
use lv_fixus.Error.{ok}
use lv_fixus.Models.Event.{AgentEvent}
use lv_fixus.Models.EventType.{is_turn_started}
use lv_fixus.Models.Failure.{FailureReason, redo_dispatch_failed, classify_failure}
use lv_fixus.Retry.{retry, decide}
use lv_fixus.Orchestrator.{Env, Orchestrator, resolve_task_type}
use lv_fixus.Orchestrator.Dispatch.{get_cached_llm_responses, dispatch_with_retry}
use lv_fixus.Orchestrator.Turns.{fail_task_with_reason}
use lv_fixus.Orchestrator.Ends.{handle_turn_execution_error, after_error, end_or_retry, retries_of}
use lv_fixus.Orchestrator.Drives.{Result-cases}
use lv_fixus.Orchestrator.Steady.{after-R, resolve-R, cached-R, retry-R, fail-R}
use lv_fixus.Orchestrator.Drain.{SameDispatcher, SameDispatcher-IsSteady}

module _ (E : Env) (task_id : String) (turn_id : ℤ) (error_type message : String) where
  open E use {j, S, store, texts, retry_policy}

  abbrev O : Type 0
  O = Orchestrator S

  retry_keeps :
      (input group : String) (reason : FailureReason) (next : ℤ) (o : O)
      → SameDispatcher o
          (end_or_retry E task_id turn_id error_type message input group (retry reason next) o).0
  retry_keeps input group reason next o =
      let p = SameDispatcher-IsSteady {S = S} in
      let o1 = (resolve_task_type E task_id o).0 in
      after-R p {o = o1} (get_cached_llm_responses E task_id turn_id o1) _
        (cached-R E p task_id turn_id o1)
        (λ cached. λ o2.
          let sent = dispatch_with_retry E task_id turn_id input group next cached o2 in
          let q = retry-R E p task_id turn_id input group next cached o2 in
          elim (Result-cases sent.1) [
            | inl (u, e) ↦ rw e q
            | inr (e, h) ↦ rw h (
                after-R p {o = sent.0}
                  (fail_task_with_reason E task_id turn_id redo_dispatch_failed
                    "redo_dispatch_failed" (texts.error e) sent.0)
                  _
                  (fail-R E p task_id turn_id redo_dispatch_failed "redo_dispatch_failed"
                    (texts.error e) sent.0)
                  (λ outcome. λ o3. refl)
                ∙ q)
          ])
      ∙ resolve-R E p task_id o

  abbrev reason : FailureReason
  reason = classify_failure error_type message

  -- The turn did not begin in the events, or it is tried again.
  abbrev pub KeepsSlot : Option (AgentEvent j.Value) → ℤ → Type 0
  KeepsSlot started current =
      (started ≡ none)
      ⊎ ((r : FailureReason) × (next : ℤ) × (decide retry_policy reason current ≡ retry r next))

  after_error_keeps :
      (started : Option (AgentEvent j.Value)) (o : O)
      → KeepsSlot started (retries_of E task_id turn_id o)
      → SameDispatcher o (after_error E task_id turn_id error_type message started o).0
  after_error_keeps none o h =
      let p = SameDispatcher-IsSteady {S = S} in
      after-R p {o = o} (fail_task_with_reason E task_id turn_id reason error_type message o) _
        (fail-R E p task_id turn_id reason error_type message o) (λ outcome. λ o1. refl)
  after_error_keeps (some e) o (inl h) = absurd (ground arith)
  after_error_keeps (some e) o (inr (r, next, d)) = rw d (retry_keeps _ _ r next _)

-- When an agent reports an error and the events of the turn hold no `turn_started`, or the budget allows a
-- retry, the report leaves the dispatcher as it was, also when every attempt to send the turn out again
-- fails and the turn ends: its slot stays taken, and no pending turn is sent out in its place.
pub error-KeepsSlot :
    (E : Env) (task_id : String) (turn_id : ℤ) (error_type message : String)
    (events : List (AgentEvent E.j.Value)) (s : E.S) (o : Orchestrator E.S)
    → E.store.get_turn_events task_id turn_id o.store ≡ (s, ok events)
    → KeepsSlot E task_id turn_id error_type message
        (find (λ e. is_turn_started e.event_type) events)
        (retries_of E task_id turn_id o)
    → (handle_turn_execution_error E task_id turn_id error_type message o).0.dispatcher
      ≡ o.dispatcher
unfolding handle_turn_execution_error
error-KeepsSlot E task_id turn_id error_type message events s o got h = rw got (
    after_error_keeps E task_id turn_id error_type message
      (find (λ e. is_turn_started e.event_type) events) (record o { store = s }) h)
