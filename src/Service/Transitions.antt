-- ===== src/Service/Transitions.antt =====
-- What a transition of a task's state does, on success and on each error.
use lv_fixus.Common.{
  String, true, Option, none, some, ℕ, ◌≡◌, ◌≢◌, sym, ap, ◌∙◌, arith, Bool-cases, inl, inr,
}
use lv_fixus.Common.Int.{ℤ}
use lv_fixus.Error.{AppError, Result, ok, err}
use lv_fixus.Models.EventType.{EventType}
use lv_fixus.Models.TaskState.{TaskState, can_transition}
use lv_fixus.Models.Event
use lv_fixus.Models.Event.{AgentEvent}
use lv_fixus.Store.{EventStore, after-eq-ok, returned_inj}
use lv_fixus.Service.{transition_task, write_new, found}

module _ {V S : Type 0} (store : EventStore V S) where
  -- What a transition that returned an event has done: it read the state `from` and left the store in
  -- `read`, the transition is legal, and it wrote the event, at task level, with the number `seq`.
  pub record Moved (now : ℕ) (task_id : String) (target : TaskState) (et : EventType) (payload : V)
      (s s' : S) (e : AgentEvent V) : Type 0 where
    pub from : TaskState
    pub read : S
    pub seq : ℤ
    pub state_read : store.get_task_state task_id s ≡ (read, ok (some from))
    pub legal : can_transition from target ≡ true
    pub written : store.write_event (Event.new now task_id none none et payload) read ≡ (s', ok seq)
    pub event : e ≡ record (Event.new now task_id none none et payload) { seq = seq }

  found-ok :
      (task_id : String) (o : Option TaskState) (s s' : S) (from : TaskState)
      → found store task_id o s ≡ (s', ok from)
      → (o ≡ some from) × (s ≡ s')
  found-ok task_id none s s' from h = absurd (ground arith)
  found-ok task_id (some t) s s' from h =
      let (same, state) = returned_inj h in (ap some state, same)

  pub write_new-ok :
      (event : AgentEvent V) (s s' : S) (e : AgentEvent V)
      → write_new store event s ≡ (s', ok e)
      → (seq : ℤ) × (store.write_event event s ≡ (s', ok seq)) × (e ≡ record event { seq = seq })
  write_new-ok event s s' e h =
      let (s1, seq, w, r) = after-eq-ok (store.write_event event s) _ h in
      let (same, event_eq) = returned_inj r in (seq, w ∙ ap (λ t. (t, ok seq)) same, sym event_eq)

  pub refused_ok :
      {s s' : S} {A : Type 0} {x : AppError} {a : A} → ◌≢◌ {A = S × Result A} (s, err x) (s', ok a)
  refused_ok h = ground arith

  -- A transition that returns an event has read a state from which the transition is legal, and written
  -- exactly that event.
  pub transition_task-ok :
      (now : ℕ) (task_id : String) (target : TaskState) (et : EventType) (payload : V) (s s' : S)
      (e : AgentEvent V)
      → transition_task store now task_id target et payload s ≡ (s', ok e)
      → Moved now task_id target et payload s s' e
  unfolding transition_task
  transition_task-ok now task_id target et payload s s' e h =
      let (s1, o, got, h1) = after-eq-ok (store.get_task_state task_id s) _ h in
      let (s2, from, f, h2) = after-eq-ok (found store task_id o s1) _ h1 in
      let (is_from, same) = found-ok task_id o s1 s2 from f in
      elim (Bool-cases (can_transition from target)) [
        | inl legal ↦
            (let (seq, w, e_eq) =
                write_new-ok (Event.new now task_id none none et payload) s2 s' e
                  (rw legal at h2) in
              record {
                from = from;
                read = s2;
                seq = seq;
                state_read = got ∙ ap (λ t. (t, ok o)) same ∙ ap (λ x. (s2, ok x)) is_from;
                legal = legal;
                written = w;
                event = e_eq;
              })
        | inr refused ↦ absurd (refused_ok (rw refused at h2))
      ]
