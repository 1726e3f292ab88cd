-- ===== src/Broker/Restart.antt =====
-- The start of another turn by src/service.rs, over the store of src/broker_store.rs, for a task that is executing.
use lv_fixus.Common.{
  String, Option, none, some, true, false, ℕ, ◌≡◌, refl, ap, ◌∙◌, string_eq, arith,
}
use lv_fixus.Common.Int.{ℤ, pos, add_i64}
use lv_fixus.Common.Map.{get}
use lv_fixus.Json.{Json, Build}
use lv_fixus.Error.{Result, ok, err, lifecycle_invariant, illegal_transition}
use lv_fixus.Models.EventType.{turn_started}
use lv_fixus.Models.Event
use lv_fixus.Models.Event.{AgentEvent, validate_scope}
use lv_fixus.Models.Guard.{validate_task_event_transition}
use lv_fixus.Models.Payload.{validate_payload_required_fields}
use lv_fixus.Models.TaskState.{executing, is_terminal}
use lv_fixus.Projection.{Decoders, TaskProjection}
use lv_fixus.Service.{start_turn, start_turn_redo, await_task, write_new}
use lv_fixus.Store.{EventStore, Action, after}
use lv_fixus.Broker.{Writer, BrokerEventStore, write_event}
use lv_fixus.Broker.Queries.{Reader, task_exists, broker_event_store}
use lv_fixus.Broker.Session.{cached-hit, with_projection-cached}

module _ (j : Json) (b : Build j) {Content B : Type 0} (w : Writer j Content B)
    (d : Decoders j Content) (r : Reader j Content B) (now : ℕ) where
  abbrev BrokerState : Type 0
  BrokerState = BrokerEventStore j w d

  abbrev store : EventStore j.Value BrokerState
  store = broker_event_store j w d r now

  -- the call fails on the guard, and neither the broker nor the cached projections change
  abbrev pub IsRefused : {A : Type 0} → BrokerState → BrokerState × Result A → Type 0
  IsRefused s result =
      (result.1 ≡ err (lifecycle_invariant (illegal_transition executing executing turn_started)))
      × (result.0.writer ≡ s.writer)
      × (result.0.cache.map ≡ s.cache.map)

  -- what follows a refused call is not reached
  after-IsRefused :
      {A C : Type 0} (s : BrokerState) (result : BrokerState × Result A)
      (k : A → Action BrokerState C)
      → IsRefused s result
      → IsRefused s (after result k)
  after-IsRefused s (s1, ok a) k h = absurd (ground arith)
  after-IsRefused s (s1, err e) k (f, w1, m1) =
      (ap (λ x. elim x [ ok a ↦ err e | err y ↦ err y ]) f, w1, m1)

  write-IsRefused :
      (t : String) (turn_id : ℤ) (payload : j.Value) (s : BrokerState) (p : TaskProjection j.Value)
      → get t s.cache.map ≡ some p
      → p.state ≡ executing
      → IsRefused s
          (write_event j w d now (Event.new now t (some turn_id) none turn_started payload) s)
  unfolding write_event validate_scope validate_payload_required_fields
      validate_task_event_transition Event.new
  write-IsRefused t turn_id payload s p h x =
      let (s1, e1, m1, w1) = cached-hit j b w d r now t s p h in rw (e1, x) (refl, w1, m1)

  new-IsRefused :
      (t : String) (turn_id : ℤ) (payload : j.Value) (s : BrokerState) (p : TaskProjection j.Value)
      → get t s.cache.map ≡ some p
      → p.state ≡ executing
      → IsRefused s (write_new store (Event.new now t (some turn_id) none turn_started payload) s)
  new-IsRefused t turn_id payload s p h x =
      let written =
        write_event j w d now (Event.new now t (some turn_id) none turn_started payload) s in
      let (e, wr, m) = write-IsRefused t turn_id payload s p h x in
      after-IsRefused s written _ (e, wr, m)

  redo-IsRefused :
      (t input group : String) (turn_id n : ℤ) (s : BrokerState) (p : TaskProjection j.Value)
      → get t s.cache.map ≡ some p
      → p.state ≡ executing
      → IsRefused s (start_turn_redo j b store now t turn_id input group n s)
  unfolding start_turn_redo
  redo-IsRefused t input group turn_id n s p h x = new-IsRefused t turn_id _ s p h x

  await-cached :
      (t : String) (s : BrokerState) (p : TaskProjection j.Value)
      → get t s.cache.map ≡ some p
      → (s1 : BrokerState) × (await_task store 30 t s ≡ (s1, true))
        × (s1.cache.map ≡ s.cache.map)
        × (s1.writer ≡ s.writer)
  unfolding await_task task_exists
  await-cached t s p h =
      let (s1, e1, m1, w1) = cached-hit j b w d r now t s p h in (s1, rw e1 refl, m1, w1)

  ended-cached :
      (t : String) (s : BrokerState) (p : TaskProjection j.Value)
      → get t s.cache.map ≡ some p
      → p.state ≡ executing
      → (s1 : BrokerState) × (store.is_task_ended t s ≡ (s1, ok false))
        × (s1.cache.map ≡ s.cache.map)
        × (s1.writer ≡ s.writer)
  unfolding is_terminal
  ended-cached t s p h x =
      let (s1, e1, m1, w1) =
        with_projection-cached j b w d r now t (λ q. is_terminal q.state) s p h in
      (s1, e1 ∙ ap (λ y. (s1, ok (is_terminal y))) x, m1, w1)

  -- Over the store that the broker backs, a task whose projection is cached and that is executing starts no
  -- further turn, also when all its turns have ended, and none of its turns is started again: both calls fail
  -- as an illegal transition from `executing` to itself, and neither the broker nor the cached projections
  -- change.
  pub executing_starts_no_turn :
      (t input fresh again : String) (group : Option String) (turn_id n : ℤ) (s : BrokerState)
      (p : TaskProjection j.Value)
      → get t s.cache.map ≡ some p
      → p.state ≡ executing
      → IsRefused s (start_turn j b store now t input group fresh s)
        × IsRefused s (start_turn_redo j b store now t turn_id input again n s)
  unfolding start_turn
  executing_starts_no_turn t input fresh again group turn_id n s p h x =
      let (s1, e1, m1, w1) = await-cached t s p h in
      let h1 = ap (get t) m1 ∙ h in
      let (s2, e2, m2, w2) = ended-cached t s1 p h1 x in
      let h2 = ap (get t) m2 ∙ h1 in
      let (s3, e3, m3, w3) = with_projection-cached j b w d r now t (λ q. q.max_turn_id) s2 p h2 in
      let h3 = ap (get t) m3 ∙ h2 in
      let (f, wr, m) =
        after-IsRefused s3 (write_new store _ s3) _
          (new-IsRefused t (add_i64 p.max_turn_id (pos 1)) _ s3 p h3 x) in
      (
        rw (e1, e2, e3) (f, wr ∙ w3 ∙ w2 ∙ w1, m ∙ m3 ∙ m2 ∙ m1),
        redo-IsRefused t input again turn_id n s p h x,
      )
