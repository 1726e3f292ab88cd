-- ===== src/Broker/Write.antt =====
-- A write of src/broker_store.rs: its checks, and the cached projection.
use lv_fixus.Common.{
  String, Option, none, some, ℕ, ◌⊎◌, inl, inr, ◌≡◌, refl, sym, ap, ◌∙◌, arith, unwrap_or,
  string_eq, beq_self,
}
use lv_fixus.Common.Int.{ℤ}
use lv_fixus.Common.Map.{Map, get, get-insert}
use lv_fixus.Json.{Json}
use lv_fixus.Error.{Result, ok, err}
use lv_fixus.Models.EventType
use lv_fixus.Models.EventType.{EventType}
use lv_fixus.Models.Event.{AgentEvent, validate_scope}
use lv_fixus.Models.Payload.{validate_payload_required_fields}
use lv_fixus.Models.Guard.{target, validate_task_event_transition}
use lv_fixus.Projection.{Decoders, TaskProjection}
use lv_fixus.Projection.Apply.{apply, indexed}
use lv_fixus.Projection.Apply.State.{apply-follows_guard}
use lv_fixus.Projection.Cache.{lookup, touch}
use lv_fixus.Store.{after-eq-ok, returned_inj}
use lv_fixus.Broker.{
  Writer, BrokerEventStore, check, encoded, hit, cached, state_of, produced, produce_event, applied,
  refresh, append_event, write_event, event_meta,
}

from_str-as_str : (et : EventType) → EventType.from_str (EventType.as_str et) ≡ some et
unfolding EventType.from_str EventType.as_str
from_str-as_str EventType.session_started = refl
from_str-as_str _ = refl

module _ (j : Json) {Content B : Type 0} (w : Writer j Content B) (d : Decoders j Content) where
  check-ok :
      (r : Result (Unit {0})) (s s' : BrokerEventStore j w d) (u : Unit {0})
      → check j w d r s ≡ (s', ok u)
      → (r ≡ ok tt) × (s ≡ s')
  check-ok (ok u) s s' v h = (refl, (returned_inj h).0)
  check-ok (err e) s s' v h = absurd (ground arith)

  touched :
      (s s' : BrokerEventStore j w d) (t : String) (found o : Option (TaskProjection j.Value))
      → hit j w d s (touch s.cache t found) ≡ (s', ok o)
      → (found ≡ o) × (s'.cache.map ≡ s.cache.map)
  touched s s' t none o h = ((returned_inj h).1, ap (λ x. x.cache.map) (sym (returned_inj h).0))
  touched s s' t (some p) o h = ((returned_inj h).1, ap (λ x. x.cache.map) (sym (returned_inj h).0))

  cached-ok :
      (t : String) (s s' : BrokerEventStore j w d) (o : Option (TaskProjection j.Value))
      → cached j w d t s ≡ (s', ok o)
      → (get t s.cache.map ≡ o) × (s'.cache.map ≡ s.cache.map)
  unfolding lookup cached
  cached-ok t s s' o h = touched s s' t (get t s.cache.map) o h

  encoded-ok :
      (x : String ⊎ Content) (s s' : BrokerEventStore j w d) (c : Content)
      → encoded j w d x s ≡ (s', ok c)
      → s ≡ s'
  encoded-ok (inl e) s s' c h = absurd (ground arith)
  encoded-ok (inr x) s s' c h = (returned_inj h).0

  produced-ok :
      (s s' : BrokerEventStore j w d) (r : B × (String ⊎ ℕ)) (seq : ℕ)
      → produced j w d s r ≡ (s', ok seq)
      → s'.cache.map ≡ s.cache.map
  produced-ok s s' (b, inl e) seq h = absurd (ground arith)
  produced-ok s s' (b, inr n) seq h = ap (λ x. x.cache.map) (sym (returned_inj h).0)

  produce_event-ok :
      (now : ℕ) (e : AgentEvent j.Value) (content : Content) (s s' : BrokerEventStore j w d)
      (seq : ℕ)
      → produce_event j w d now e content s ≡ (s', ok seq)
      → s'.cache.map ≡ s.cache.map
  produce_event-ok now e content s s' seq h =
      produced-ok s s'
        (w.produce s.writer e.task_id (EventType.as_str e.event_type) content now
          (event_meta j w d e))
        seq h

  applied-state :
      (now seq : ℕ) (p : TaskProjection j.Value) (et : EventType) (content : Content)
      (meta : Map String String)
      → validate_task_event_transition (some p.state) et ≡ ok tt
      → (applied j w d p (apply j d now p seq (EventType.as_str et) content meta)).state
        ≡ unwrap_or p.state (target et)
  unfolding apply
  applied-state now seq p et content meta g =
      rw (from_str-as_str et) (apply-follows_guard j d p (indexed j d now p seq et content meta) g)

  -- what the last step of a write leaves in the cache
  refreshed :
      (now seq : ℕ) (e : AgentEvent j.Value) (content : Content) (s s' : BrokerEventStore j w d)
      (p : TaskProjection j.Value) (u : Unit {0})
      → validate_task_event_transition (some p.state) e.event_type ≡ ok tt
      → refresh j w d now e seq content (some p) s ≡ (s', ok u)
      → (q : TaskProjection j.Value) × (get e.task_id s'.cache.map ≡ some q)
        × (q.state ≡ unwrap_or p.state (target e.event_type))
  refreshed now seq e content s s' p u g h = (
    applied j w d p
        (apply j d now p seq (EventType.as_str e.event_type) content (event_meta j w d e)),
    ap (λ x. get e.task_id x.cache.map) (sym (returned_inj h).0)
        ∙ get-insert e.task_id e.task_id _ s.cache.map
        ∙ rw (beq_self e.task_id) refl,
    applied-state now seq p e.event_type content (event_meta j w d e) g,
  )

  append_event-ok :
      (now : ℕ) (e : AgentEvent j.Value) (s s' : BrokerEventStore j w d) (n : ℤ)
      (p : TaskProjection j.Value)
      → get e.task_id s.cache.map ≡ some p
      → validate_task_event_transition (some p.state) e.event_type ≡ ok tt
      → append_event j w d now e s ≡ (s', ok n)
      → (q : TaskProjection j.Value) × (get e.task_id s'.cache.map ≡ some q)
        × (q.state ≡ unwrap_or p.state (target e.event_type))
  append_event-ok now e s s' n p at_start g h =
      let (s1, content, c, h1) = after-eq-ok (encoded j w d (w.to_vec e.payload) s) _ h in
      let (s2, seq, put, h2) = after-eq-ok (produce_event j w d now e content s1) _ h1 in
      let (s3, o, again, h3) = after-eq-ok (cached j w d e.task_id s2) _ h2 in
      let (s4, u, done, h4) = after-eq-ok (refresh j w d now e seq content o s3) _ h3 in
      let same_map : s2.cache.map ≡ s.cache.map =
        produce_event-ok now e content s1 s2 seq put
        ∙ ap (λ x. x.cache.map) (sym (encoded-ok (w.to_vec e.payload) s s1 content c)) in
      let o_is : o ≡ some p =
        sym (cached-ok e.task_id s2 s3 o again).0 ∙ ap (get e.task_id) same_map ∙ at_start in
      let (q, found, moved) =
        refreshed now seq e content s3 s4 p u g
          (ap (λ x. refresh j w d now e seq content x s3) (sym o_is) ∙ done) in
      (q, ap (λ x. get e.task_id x.cache.map) (sym (returned_inj h4).0) ∙ found, moved)

  -- A write that returns, for a task whose projection is cached, has passed the check of scope, the check
  -- of the payload and the guard in the state of that projection, and leaves in the cache a projection
  -- of the task in the state that the guard checked the transition to, or in the same state for an event
  -- without one.
  pub write_event-ok :
      (now : ℕ) (e : AgentEvent j.Value) (s s' : BrokerEventStore j w d) (n : ℤ)
      (p : TaskProjection j.Value)
      → get e.task_id s.cache.map ≡ some p
      → write_event j w d now e s ≡ (s', ok n)
      → (validate_scope e ≡ ok tt)
        × (validate_payload_required_fields j e.event_type e.payload ≡ ok tt)
        × (validate_task_event_transition (some p.state) e.event_type ≡ ok tt)
        × ((q : TaskProjection j.Value) × (get e.task_id s'.cache.map ≡ some q)
            × (q.state ≡ unwrap_or p.state (target e.event_type)))
  unfolding write_event
  write_event-ok now e s s' n p at_start h =
      let (s1, u1, scoped, h1) = after-eq-ok (check j w d (validate_scope e) s) _ h in
      let (s2, u2, filled, h2) =
        after-eq-ok (check j w d (validate_payload_required_fields j e.event_type e.payload) s1) _
          h1 in
      let (s3, o, seen, h3) = after-eq-ok (cached j w d e.task_id s2) _ h2 in
      let (s4, u4, guarded, h4) =
        after-eq-ok
          (check j w d (validate_task_event_transition (state_of j w d o) e.event_type) s3) _ h3 in
      let scope_ok = check-ok (validate_scope e) s s1 u1 scoped in
      let payload_ok =
        check-ok (validate_payload_required_fields j e.event_type e.payload) s1 s2 u2 filled in
      let guard_ok =
        check-ok (validate_task_event_transition (state_of j w d o) e.event_type) s3 s4 u4
          guarded in
      let start2 : get e.task_id s2.cache.map ≡ some p =
        ap (λ x. get e.task_id x.cache.map) (sym (scope_ok.1 ∙ payload_ok.1)) ∙ at_start in
      let lookup_ok = cached-ok e.task_id s2 s3 o seen in
      let o_is : o ≡ some p = sym lookup_ok.0 ∙ start2 in
      let passed : validate_task_event_transition (some p.state) e.event_type ≡ ok tt =
        ap (λ x. validate_task_event_transition (state_of j w d x) e.event_type) (sym o_is)
        ∙ guard_ok.0 in
      (
        scope_ok.0,
        payload_ok.0,
        passed,
        append_event-ok now e s4 s' n p
            (ap (λ x. get e.task_id x.cache.map) (sym guard_ok.1)
              ∙ ap (get e.task_id) lookup_ok.1
              ∙ start2)
            passed h4,
      )
