-- ===== src/Orchestrator/Steady.antt =====
-- The operations of src/orchestrator.rs that make no call on the dispatcher, with respect to a relation on
-- states that such operations keep.
use lv_fixus.Common.{
  String, Option, none, some, ℕ, zero, suc, List, ◌≡◌, refl, ◌==◌, string_eq, Bool-cases, inl, inr,
}
use lv_fixus.Common.Int.{ℤ}
use lv_fixus.Registry.{TurnOutcome, failed, complete_pending_turn}
use lv_fixus.Context.{LlmContext, build_llm_context}
use lv_fixus.Error.{Result, ok, err}
use lv_fixus.Models.Failure.{FailureReason}
use lv_fixus.Models.Records.{Task}
use lv_fixus.Store.{Action, after}
use lv_fixus.Orchestrator.{
  Env, Orchestrator, with_store, lift, found_task, resolve_rounds, resolve_task_type,
}
use lv_fixus.Orchestrator.Dispatch.{
  dispatch_execute_turn_with_ctx, dispatch_execute_turn, get_cached_llm_responses, dispatch_rounds,
  dispatch_with_retry,
}
use lv_fixus.Orchestrator.Turns.{
  forget_retries, forget_dispatch, record_turn_terminal, fail_task_with_reason,
}
use lv_fixus.Orchestrator.Drives.{Result-cases}

-- A relation that holds along changes of the store and the maps, and along the answer to a waiting call.
pub record IsSteady {S : Type 0} (R : Orchestrator S → Orchestrator S → Type 0) : Type 0 where
  pub same :
      {o o' : Orchestrator S}
      → o'.dispatcher ≡ o.dispatcher
      → o'.registry ≡ o.registry
      → o'.channels ≡ o.channels
      → R o o'
  pub next : {o o' o'' : Orchestrator S} → R o o' → R o' o'' → R o o''
  pub answer :
      (task_id : String) (outcome : TurnOutcome) (o : Orchestrator S)
      → R o (record o { registry = (complete_pending_turn o.registry task_id outcome).0 })

module _ {S : Type 0} {R : Orchestrator S → Orchestrator S → Type 0} (p : IsSteady R) where
  abbrev pub MovesBy : {A : Type 0} → Action (Orchestrator S) A → Type 0
  MovesBy m = (o : Orchestrator S) → R o (m o).0

  pub after-R :
      {A B : Type 0} {o : Orchestrator S} (r : Orchestrator S × Result A)
      (k : A → Action (Orchestrator S) B)
      → R o r.0
      → ((a : A) → MovesBy (k a))
      → R o (after r k).0
  after-R (o', ok a) k h q = p.next h (q a o')
  after-R (o', err e) k h q = h

  kept : {A : Type 0} {o : Orchestrator S} (r : S × Result A) → R o (with_store o r).0
  kept (s, r) = p.same refl refl refl

module _ (E : Env) {R : Orchestrator E.S → Orchestrator E.S → Type 0} (p : IsSteady R) where
  open E use {j, S, store, texts}

  abbrev O : Type 0
  O = Orchestrator S

  found-R : (task_id : String) (t : Option (Task j.Value)) → MovesBy p (found_task E task_id t)
  found-R task_id none o = p.same refl refl refl
  found-R task_id (some t) o = p.same refl refl refl

  pub rounds-R : (n : ℕ) (task_id : String) → MovesBy p (resolve_rounds E n task_id)
  unfolding resolve_rounds
  rounds-R zero task_id o = p.same refl refl refl
  rounds-R (suc n) task_id o =
      after-R p (lift (store.get_task task_id) o) _ (kept p (store.get_task task_id o.store))
        (λ found. λ o1.
          after-R p (found_task E task_id found o1) _ (found-R task_id found o1) (λ task. λ o2.
            elim (Bool-cases (task.task_type == "")) [
              | inl e ↦ rw e (p.next (p.same refl refl refl) (rounds-R n task_id _))
              | inr e ↦ rw e (p.same refl refl refl)
            ]))

  abbrev pub resolve-R : (task_id : String) → MovesBy p (resolve_task_type E task_id)
  resolve-R task_id = rounds-R 10 task_id

  ctx-R :
      (task_id : String) (turn_id : ℤ) (input group : String) (count : ℤ) (cached : List String)
      (ctx : LlmContext)
      → MovesBy p (dispatch_execute_turn_with_ctx E task_id turn_id input group count cached ctx)
  unfolding dispatch_execute_turn_with_ctx
  ctx-R task_id turn_id input group count cached ctx o =
      let o1 = (lift (store.get_task task_id) o).0 in
      p.next (kept p (store.get_task task_id o.store)) (
        after-R p (resolve_task_type E task_id o1) _ (resolve-R task_id o1)
          (λ kind. λ o2. p.same refl refl refl))

  execute-R :
      (task_id : String) (turn_id : ℤ) (input group : String) (count : ℤ) (cached : List String)
      → MovesBy p (dispatch_execute_turn E task_id turn_id input group count cached)
  unfolding dispatch_execute_turn
  execute-R task_id turn_id input group count cached o =
      after-R p (lift (build_llm_context j E.render store task_id) o) _
        (kept p (build_llm_context j E.render store task_id o.store))
        (λ ctx. ctx-R task_id turn_id input group count cached ctx)

  pub cached-R :
      (task_id : String) (turn_id : ℤ) → MovesBy p (get_cached_llm_responses E task_id turn_id)
  unfolding get_cached_llm_responses
  cached-R task_id turn_id o = kept p (store.get_turn_events task_id turn_id o.store)

  dispatch_rounds-R :
      (dispatch : Action O (Unit {0})) (n : ℕ) (last : Option String)
      → MovesBy p dispatch
      → MovesBy p (dispatch_rounds E dispatch n last)
  unfolding dispatch_rounds
  dispatch_rounds-R dispatch zero last m o = p.same refl refl refl
  dispatch_rounds-R dispatch (suc n) last m o = elim (Result-cases (dispatch o).1) [
    | inl (u, e) ↦ rw e (m o)
    | inr (e, h) ↦
        rw h (p.next (m o) (dispatch_rounds-R dispatch n (some (texts.error e)) m (dispatch o).0))
  ]

  pub retry-R :
      (task_id : String) (turn_id : ℤ) (input group : String) (count : ℤ) (cached : List String)
      → MovesBy p (dispatch_with_retry E task_id turn_id input group count cached)
  unfolding dispatch_with_retry
  retry-R task_id turn_id input group count cached =
      dispatch_rounds-R _ _ none (execute-R task_id turn_id input group count cached)

  pub terminal-R :
      (task_id : String) (turn_id : ℤ) → MovesBy p (record_turn_terminal E task_id turn_id)
  unfolding record_turn_terminal
  terminal-R task_id turn_id o =
      let o1 = (forget_dispatch E task_id turn_id o) in
      p.next (p.same {o' = o1} refl refl refl) (resolve-R task_id o1)

  pub fail-R :
      (task_id : String) (turn_id : ℤ) (reason : FailureReason) (error_type message : String)
      → MovesBy p (fail_task_with_reason E task_id turn_id reason error_type message)
  unfolding fail_task_with_reason
  fail-R task_id turn_id reason error_type message o =
      let o1 = forget_retries E task_id turn_id o in
      p.next (p.same {o' = o1} refl refl refl) (
        after-R p (record_turn_terminal E task_id turn_id o1) _ (terminal-R task_id turn_id o1)
          (λ u. λ o2.
            p.next (p.same refl refl refl)
              (p.answer task_id (failed turn_id error_type message) _)))
