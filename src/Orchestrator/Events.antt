-- ===== src/Orchestrator/Events.antt =====
-- The reports of agents, the waiting calls and the watchdog of src/orchestrator.rs on the shared state.
use lv_fixus.Common.{String, Option, none, some, refl, string_eq, inl, inr}
use lv_fixus.Common.Int.{ℤ, int_eq}
use lv_fixus.Models.Event.{AgentEvent}
use lv_fixus.Models.Failure.{redo_dispatch_failed, classify_failure}
use lv_fixus.Retry
use lv_fixus.Retry.{RetryDecision, retry}
use lv_fixus.Service.{complete_turn}
use lv_fixus.Orchestrator.{Env, Orchestrator, lift, resolve_task_type}
use lv_fixus.Orchestrator.Dispatch.{get_cached_llm_responses, dispatch_with_retry}
use lv_fixus.Orchestrator.Turns.{
  forget_retries, record_turn_terminal, fail_task_with_reason, release_slot_and_redispatch,
}
use lv_fixus.Orchestrator.Ends.{
  handle_turn_execution_done, handle_turn_execution_error, end_or_retry, after_error, counted,
  decided, retries_of,
}
use lv_fixus.Orchestrator.Drives.{
  Advances, Moves, stays, go_on, after-Advances, stored, Result-cases,
}
use lv_fixus.Orchestrator.Moves.{
  resolve-Moves, cached-Moves, retry-Moves, terminal-Moves, respond-Advances, fail-Moves,
  release-Advances,
}

module _ (E : Env) where
  open E use {j, b, render, S, store, texts, now}

  abbrev O : Type 0
  O = Orchestrator S

  pub done-Moves :
      (task_id : String) (turn_id : ℤ) (output : String)
      → Moves (handle_turn_execution_done E task_id turn_id output)
  unfolding handle_turn_execution_done
  done-Moves task_id turn_id output o =
      after-Advances (lift (complete_turn j b store now task_id turn_id output) o) _
        (stored (complete_turn j b store now task_id turn_id output o.store))
        (λ written. λ o1.
          let o2 = forget_retries E task_id turn_id o1 in
          go_on (stays {o' = o2} refl refl refl) (
            after-Advances (record_turn_terminal E task_id turn_id o2) _
              (terminal-Moves E task_id turn_id o2)
              (λ u. λ o3.
                let o4 = release_slot_and_redispatch E task_id o3 in
                go_on (release-Advances E task_id o3) (
                  after-Advances (lift (store.get_turn_events task_id turn_id) o4) _
                    (stored (store.get_turn_events task_id turn_id o4.store))
                    (λ events. λ o5. respond-Advances E task_id _ o5)))))

  end_or_retry-Moves :
      (task_id : String) (turn_id : ℤ) (error_type message input group : String) (d : RetryDecision)
      → Moves (end_or_retry E task_id turn_id error_type message input group d)
  end_or_retry-Moves task_id turn_id error_type message input group (retry reason next) o =
      let o1 = (resolve_task_type E task_id o).0 in
      go_on (resolve-Moves E task_id o) (
        after-Advances (get_cached_llm_responses E task_id turn_id o1) _
          (cached-Moves E task_id turn_id o1)
          (λ cached. λ o2.
            let sent = dispatch_with_retry E task_id turn_id input group next cached o2 in
            let p = retry-Moves E task_id turn_id input group next cached o2 in
            elim (Result-cases sent.1) [
              | inl (u, e) ↦ rw e p
              | inr (e, h) ↦ rw h (
                  go_on p (
                    after-Advances
                      (fail_task_with_reason E task_id turn_id redo_dispatch_failed
                        "redo_dispatch_failed" (texts.error e) sent.0)
                      _
                      (fail-Moves E task_id turn_id redo_dispatch_failed "redo_dispatch_failed"
                        (texts.error e) sent.0)
                      (λ outcome. λ o3. stays refl refl refl)))
            ]))
  end_or_retry-Moves task_id turn_id error_type message input group (Retry.fail reason exhausted)
        o =
      after-Advances (fail_task_with_reason E task_id turn_id reason error_type message o) _
        (fail-Moves E task_id turn_id reason error_type message o)
        (λ outcome. λ o1. release-Advances E task_id o1)

  counted-Advances :
      (task_id : String) (turn_id current : ℤ) (d : RetryDecision) (o : O)
      → Advances o (counted E task_id turn_id current d o)
  counted-Advances task_id turn_id current (retry reason next) o = stays refl refl refl
  counted-Advances task_id turn_id current (Retry.fail reason exhausted) o = stays refl refl refl

  after_error-Moves :
      (task_id : String) (turn_id : ℤ) (error_type message : String)
      (started : Option (AgentEvent j.Value))
      → Moves (after_error E task_id turn_id error_type message started)
  after_error-Moves task_id turn_id error_type message none o =
      after-Advances
        (fail_task_with_reason E task_id turn_id (classify_failure error_type message) error_type
          message o)
        _ (fail-Moves E task_id turn_id _ error_type message o)
        (λ outcome. λ o1. stays refl refl refl)
  after_error-Moves task_id turn_id error_type message (some e) o =
      let d = decided E task_id turn_id (classify_failure error_type message) o in
      go_on (counted-Advances task_id turn_id (retries_of E task_id turn_id o) d o)
        (end_or_retry-Moves task_id turn_id error_type message _ _ d _)

  pub error-Moves :
      (task_id : String) (turn_id : ℤ) (error_type message : String)
      → Moves (handle_turn_execution_error E task_id turn_id error_type message)
  unfolding handle_turn_execution_error
  error-Moves task_id turn_id error_type message o =
      after-Advances (lift (store.get_turn_events task_id turn_id) o) _
        (stored (store.get_turn_events task_id turn_id o.store))
        (λ events. after_error-Moves task_id turn_id error_type message _)
