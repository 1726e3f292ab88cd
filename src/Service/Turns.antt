-- ===== src/Service/Turns.antt =====
-- What starting a turn does.
use lv_fixus.Common.{
  String, Bool, true, false, Option, none, some, ℕ, ◌≡◌, refl, unwrap_or, Bool-cases, inl, inr, sym,
  ap, ◌∙◌,
}
use lv_fixus.Common.Int.{ℤ, pos, add_i64}
use lv_fixus.Json.{Json, Build}
use lv_fixus.Error.{AppError, Result, ok}
use lv_fixus.Models.EventType.{turn_started}
use lv_fixus.Models.Event
use lv_fixus.Models.Event.{AgentEvent}
use lv_fixus.Store.{EventStore, after-eq-ok, returned_inj}
use lv_fixus.Service.{
  start_turn, start_seen, await_task, when_seen, write_new, turn_started_payload,
}
use lv_fixus.Service.Transitions.{write_new-ok, refused_ok}

module _ (j : Json) (b : Build j) {S : Type 0} (store : EventStore j.Value S) (now : ℕ) where
  -- the start of the turn that follows `max_turn`
  abbrev pub start_event : String → String → Option String → String → ℤ → AgentEvent j.Value
  start_event task_id user_input redo_group fresh max_turn =
      Event.new now task_id (some (add_i64 max_turn (pos 1))) none turn_started
        (turn_started_payload j b user_input (unwrap_or fresh redo_group) (pos 0))

  -- What a call of `start_turn` that returned has done: it saw the task, read that it has not ended, read
  -- the greatest turn id, and wrote the start of the next turn in the state that these reads left.
  pub record Started (task_id user_input : String) (redo_group : Option String) (fresh : String)
      (s s' : S) (result : ℤ × (String × AgentEvent j.Value)) : Type 0 where
    pub seen : S
    pub unended : S
    pub read : S
    pub max_turn : ℤ
    pub seq : ℤ
    pub task_seen : await_task store 30 task_id s ≡ (seen, true)
    pub not_ended : store.is_task_ended task_id seen ≡ (unended, ok false)
    pub max_read : store.get_max_turn_id task_id unended ≡ (read, ok max_turn)
    pub written :
        store.write_event (start_event task_id user_input redo_group fresh max_turn) read
        ≡ (s', ok seq)
    pub returned : result ≡ (
      add_i64 max_turn (pos 1),
      (
        unwrap_or fresh redo_group,
        record (start_event task_id user_input redo_group fresh max_turn) { seq = seq },
      ),
    )

  start_seen-ok :
      (task_id user_input : String) (redo_group : Option String) (fresh : String) (s r s' : S)
      (result : ℤ × (String × AgentEvent j.Value))
      → await_task store 30 task_id s ≡ (r, true)
      → start_seen j b store now task_id user_input redo_group fresh r ≡ (s', ok result)
      → Started task_id user_input redo_group fresh s s' result
  start_seen-ok task_id user_input redo_group fresh s r s' result w h =
      let (s1, ended, was, h1) = after-eq-ok (store.is_task_ended task_id r) _ h in
      elim (Bool-cases ended) [
        | inl over ↦ absurd (refused_ok store (rw over at h1))
        | inr live ↦
            (let (s2, max_turn, got, h2) =
                after-eq-ok (store.get_max_turn_id task_id s1) _ (rw live at h1) in
              let (s3, e, wrote, h3) =
                after-eq-ok
                  (write_new store (start_event task_id user_input redo_group fresh max_turn) s2) _
                  h2 in
              let (seq, put, e_eq) =
                write_new-ok store (start_event task_id user_input redo_group fresh max_turn) s2 s3
                  e wrote in
              let (same, value) = returned_inj h3 in
              record {
                seen = r;
                unended = s1;
                read = s2;
                max_turn = max_turn;
                seq = seq;
                task_seen = w;
                not_ended = was ∙ ap (λ x. (s1, ok x)) live;
                max_read = got;
                written = put ∙ ap (λ t. (t, ok seq)) same;
                returned =
                    sym value
                    ∙ ap (λ x. (add_i64 max_turn (pos 1), (unwrap_or fresh redo_group, x))) e_eq;
              })
      ]

  when_seen-ok :
      {A : Type 0} (r : S × Bool) (k : S → S × Result A) (x : AppError) (s' : S) (a : A)
      → when_seen j b store now r k x ≡ (s', ok a)
      → (t : S) × (r ≡ (t, true)) × (k t ≡ (s', ok a))
  when_seen-ok (t, true) k x s' a h = (t, refl, h)
  when_seen-ok (t, false) k x s' a h = absurd (refused_ok store h)

  -- A call of `start_turn` that returns has seen the task, read that it has not ended, and written one
  -- `turn_started` event, of the turn after the greatest one read and with the given redo group or else
  -- the fresh one; it returns that turn, that group and that event.
  pub start_turn-ok :
      (task_id user_input : String) (redo_group : Option String) (fresh : String) (s s' : S)
      (result : ℤ × (String × AgentEvent j.Value))
      → start_turn j b store now task_id user_input redo_group fresh s ≡ (s', ok result)
      → Started task_id user_input redo_group fresh s s' result
  unfolding start_turn
  start_turn-ok task_id user_input redo_group fresh s s' result h =
      let (r, seen, h1) =
        when_seen-ok (await_task store 30 task_id s)
          (start_seen j b store now task_id user_input redo_group fresh) _ s' result h in
      start_seen-ok task_id user_input redo_group fresh s r s' result seen h1
