-- ===== src/Broker/Session.antt =====
-- The service of src/service.rs over the store of src/broker_store.rs.
use lv_fixus.Common.{
  String, Option, none, some, true, ℕ, ◌≡◌, refl, sym, ap, ◌∙◌, unwrap_or, string_eq,
}
use lv_fixus.Common.Map.{get}
use lv_fixus.Json.{Json, Build}
use lv_fixus.Error.{Result, ok, err, invalid_task_state_transition}
use lv_fixus.Models.EventType.{EventType}
use lv_fixus.Models.Event
use lv_fixus.Models.Event.{AgentEvent}
use lv_fixus.Models.Failure.{FailureReason}
use lv_fixus.Models.Guard.{target}
use lv_fixus.Models.TaskState.{
  TaskState, ready, claimed, blocked, succeeded, failed, canceled, is_terminal,
}
use lv_fixus.Projection.{Decoders, TaskProjection}
use lv_fixus.Projection.Cache.{lookup}
use lv_fixus.Service.{
  transition_task, mark_task_ready, claim_task, block_task, succeed_task, fail_task, cancel_task,
}
use lv_fixus.Service.Transitions.{transition_task-ok}
use lv_fixus.Service.Refused.{terminal_refused}
use lv_fixus.Store.{EventStore, returned_inj}
use lv_fixus.Broker.{Writer, BrokerEventStore, cached}
use lv_fixus.Broker.Queries.{
  Reader, ensure_projection, with_projection, get_task_state, broker_event_store,
}
use lv_fixus.Broker.Write.{write_event-ok}

module _ (j : Json) (b : Build j) {Content B : Type 0} (w : Writer j Content B)
    (d : Decoders j Content) (r : Reader j Content B) (now : ℕ) where
  abbrev BrokerState : Type 0
  BrokerState = BrokerEventStore j w d

  pub cached-hit :
      (t : String) (s : BrokerState) (p : TaskProjection j.Value)
      → get t s.cache.map ≡ some p
      → (s1 : BrokerState) × (cached j w d t s ≡ (s1, ok (some p)))
        × (s1.cache.map ≡ s.cache.map)
        × (s1.writer ≡ s.writer)
  unfolding cached lookup
  cached-hit t s p h = rw h (_, refl, refl, refl)

  -- a query of a task whose projection is cached reads that projection
  pub with_projection-cached :
      {A : Type 0} (t : String) (f : TaskProjection j.Value → A) (s : BrokerState)
      (p : TaskProjection j.Value)
      → get t s.cache.map ≡ some p
      → (s1 : BrokerState) × (with_projection j w d r now t f s ≡ (s1, ok (f p)))
        × (s1.cache.map ≡ s.cache.map)
        × (s1.writer ≡ s.writer)
  unfolding ensure_projection
  with_projection-cached t f s p h =
      let (s1, e1, m1, w1) = cached-hit t s p h in
      let (s2, e2, m2, w2) = cached-hit t s1 p (ap (get t) m1 ∙ h) in
      (s2, rw (e1, ensure_projection) (rw e2 refl), m2 ∙ m1, w2 ∙ w1)

  abbrev store : EventStore j.Value BrokerState
  store = broker_event_store j w d r now

  -- A transition leaves the projection of the task in the cache, in the state that its event leads to.
  transition-cached :
      (t : String) (to : TaskState) (et : EventType) (payload : j.Value) (s s' : BrokerState)
      (e : AgentEvent j.Value) (p : TaskProjection j.Value)
      → get t s.cache.map ≡ some p
      → target et ≡ some to
      → transition_task store now t to et payload s ≡ (s', ok e)
      → (q : TaskProjection j.Value) × (get t s'.cache.map ≡ some q) × (q.state ≡ to)
  unfolding get_task_state Event.new
  transition-cached t to et payload s s' e p h leads done =
      let moved = transition_task-ok store now t to et payload s s' e done in
      let (s1, e1, m1, w1) = with_projection-cached t (λ x. some x.state) s p h in
      let same : s1 ≡ moved.read = (returned_inj (sym e1 ∙ moved.state_read)).0 in
      let at_read : get t moved.read.cache.map ≡ some p =
        ap (λ x. get t x.cache.map) (sym same) ∙ ap (get t) m1 ∙ h in
      let (scoped, filled, guarded, (q, found, state)) =
        write_event-ok j w d now (Event.new now t none none et payload) moved.read s' moved.seq p
          at_read moved.written in
      (q, found, state ∙ ap (unwrap_or p.state) leads)

  -- A task whose projection is cached and that a transition of the service moves to a terminal state, over the
  -- store that the broker backs: in the state of the store that the transition leaves, the task's state is
  -- read as that terminal state, and each of the six operations on the state of the task fails as an illegal
  -- transition from it, writing nothing and leaving the cached projections as they are. It does not speak of
  -- a store in which the projection has been evicted or made invalid since.
  pub ended_refuses :
      (t text : String) (reason : Option FailureReason) (to : TaskState) (et : EventType)
      (payload : j.Value) (s s' : BrokerState) (e : AgentEvent j.Value) (p : TaskProjection j.Value)
      → get t s.cache.map ≡ some p
      → target et ≡ some to
      → is_terminal to ≡ true
      → transition_task store now t to et payload s ≡ (s', ok e)
      → (s'' : BrokerState) × (store.get_task_state t s' ≡ (s'', ok (some to)))
        × (s''.writer ≡ s'.writer)
        × (s''.cache.map ≡ s'.cache.map)
        × (let refusal : TaskState → BrokerState × Result (AgentEvent j.Value) =
              λ x. (s'', err (invalid_task_state_transition t to x)) in
            (mark_task_ready j b store now t s' ≡ refusal ready)
            × (claim_task j b store now t text s' ≡ refusal claimed)
            × (block_task j b store now t text s' ≡ refusal blocked)
            × (succeed_task j b store now t text s' ≡ refusal succeeded)
            × (fail_task j b store now t text reason s' ≡ refusal failed)
            × (cancel_task j b store now t text s' ≡ refusal canceled))
  unfolding get_task_state
  ended_refuses t text reason to et payload s s' e p h leads terminal done =
      let (q, found, state) = transition-cached t to et payload s s' e p h leads done in
      let (s'', read, m, wr) = with_projection-cached t (λ x. some x.state) s' q found in
      let reads : store.get_task_state t s' ≡ (s'', ok (some to)) =
        read ∙ ap (λ x. (s'', ok (some x))) state in
      (s'', reads, wr, m, terminal_refused j b store now t text reason to s' s'' reads terminal)
