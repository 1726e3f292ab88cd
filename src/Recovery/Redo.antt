-- ===== src/Recovery/Redo.antt =====
-- What `recover_task` of src/recovery.rs does with each of the turns, and the contexts that it hands back.
use mathlib.Core.Path.{subst}
use mathlib.Core.List.{append_assoc, append-nil}
use lv_fixus.Common.{
  String, Bool, true, false, Option, none, some, ℕ, List, [], ◌∷◌, ◌++◌, ◌≡◌, refl, sym, ap, ◌∙◌,
  any, filter, find, unwrap_or, Bool-cases, Option-cases, inl, inr, ◌⊎◌, ◌==◌,
}
use lv_fixus.Common.Int.{pos, add_i32, int_eq}
use lv_fixus.Json.{Json, Build}
use lv_fixus.Error.{ok}
use lv_fixus.Models.EventType.{is_turn_started}
use lv_fixus.Models.Event.{AgentEvent}
use lv_fixus.Models.Records.{IncompleteTurn, IncompleteStep}
use lv_fixus.Store.{EventStore, after-eq-ok, returned_inj}
use lv_fixus.Recovery.{
  RecoveryDecision, RedoContext, safe_to_redo, requires_human_intervention, push_redo, redo_of,
  text_of, build_redo_context_from_events, build_redo_context, decide_turn_recovery, act_on,
  recover_turns, recover_task, fail_turn_with_non_idempotent_block,
}
use lv_fixus.Recovery.Decide.{blocks_redo, decision, decide_recovery-eq}

abbrev pub in_front : Option RedoContext → List RedoContext → List RedoContext
in_front none cs = cs
in_front (some c) cs = c ∷ cs

in_front-append :
    (o : Option RedoContext) (xs ys : List RedoContext)
    → xs ++ in_front o [] ++ ys ≡ xs ++ in_front o ys
in_front-append none xs ys = rw (append-nil xs) refl
in_front-append (some c) xs ys = append_assoc xs (c ∷ []) ys

module _ (j : Json) {S : Type 0} (store : EventStore j.Value S) (b : Build j) (now : ℕ)
    (display : ℕ → String) (task_id : String) where
  -- from `s`, the events of the turn and then all incomplete steps of the task are read
  abbrev pub StepsRead : IncompleteTurn → S → S → List (IncompleteStep j.Value) → Type 0
  StepsRead turn s read steps =
      (mid : S) × (events : List (AgentEvent j.Value)) × (store.get_turn_events task_id turn.turn_id
          s
        ≡ (mid, ok events))
      × (store.get_incomplete_steps task_id mid ≡ (read, ok steps))

  -- the steps of the turn that stand in the way of a redo
  abbrev pub blocking :
      IncompleteTurn → List (IncompleteStep j.Value) → List (IncompleteStep j.Value)
  blocking turn steps = filter (blocks_redo j) (filter (λ s. s.turn_id == turn.turn_id) steps)

  -- What is done with one turn, and the context that it gives.
  pub data Handled (turn : IncompleteTurn) (s s' : S) (o : Option RedoContext) : Type 0 where
    redone :
        (read : S) (steps : List (IncompleteStep j.Value)) (events : List (AgentEvent j.Value))
        (started : AgentEvent j.Value)
        → StepsRead turn s read steps
        → blocking turn steps ≡ []
        → store.get_turn_events task_id turn.turn_id read ≡ (s', ok events)
        → find (λ e. is_turn_started e.event_type) events ≡ some started
        → o
          ≡ some record {
            task_id = task_id;
            turn_id = turn.turn_id;
            redo_group = turn.redo_group;
            redo_count = add_i32 turn.redo_count (pos 1);
            user_input = unwrap_or "" (text_of j started.payload "user_input");
          }
        → Handled turn s s' o
    never_started :
        (read : S) (steps : List (IncompleteStep j.Value)) (events : List (AgentEvent j.Value))
        → StepsRead turn s read steps
        → blocking turn steps ≡ []
        → store.get_turn_events task_id turn.turn_id read ≡ (s', ok events)
        → find (λ e. is_turn_started e.event_type) events ≡ none
        → o ≡ none
        → Handled turn s s' o
    failed :
        (read : S) (steps : List (IncompleteStep j.Value)) (first : IncompleteStep j.Value)
        (more : List (IncompleteStep j.Value))
        → StepsRead turn s read steps
        → blocking turn steps ≡ first ∷ more
        → fail_turn_with_non_idempotent_block j store b now display task_id turn.turn_id
            (first ∷ more)
            read
          ≡ (s', ok tt)
        → o ≡ none
        → Handled turn s s' o

  -- What is done with the turns, one after another, and the contexts that they give.
  abbrev pub Recovered : List IncompleteTurn → S → S → List RedoContext → Type 0
  Recovered [] s s' result = (s ≡ s') × (result ≡ [])
  Recovered (turn ∷ turns) s s' result =
      (mid : S) × (o : Option RedoContext) × (rest : List RedoContext) × Handled turn s mid o
      × Recovered turns mid s' rest
      × (result ≡ in_front o rest)

  steps_read :
      (turn : IncompleteTurn) (s s' : S) (d : RecoveryDecision j.Value)
      → decide_turn_recovery j store task_id turn s ≡ (s', ok d)
      → (steps : List (IncompleteStep j.Value)) × StepsRead turn s s' steps
        × (decision j (blocks_redo j) turn (filter (λ s. s.turn_id == turn.turn_id) steps) ≡ d)
  unfolding decide_turn_recovery
  steps_read turn s s' d h =
      let (s1, events, got, h1) = after-eq-ok (store.get_turn_events task_id turn.turn_id s) _ h in
      let (s2, steps, got_steps, h2) = after-eq-ok (store.get_incomplete_steps task_id s1) _ h1 in
      let (same, is_d) = returned_inj h2 in
      (
        steps,
        (s1, events, got, got_steps ∙ ap (λ x. (x, ok steps)) same),
        sym (decide_recovery-eq j turn (filter (λ s. s.turn_id == turn.turn_id) steps)) ∙ is_d,
      )

  any-filter :
      (p : IncompleteStep j.Value → Bool) (xs : List (IncompleteStep j.Value))
      → ((any p xs ≡ false) × (filter p xs ≡ []))
        ⊎ ((any p xs ≡ true)
            × ((first : IncompleteStep j.Value) × (more : List (IncompleteStep j.Value)) × (filter p
                    xs
                  ≡ first ∷ more)))
  any-filter p [] = inl (refl, refl)
  any-filter p (x ∷ xs) = elim (Bool-cases (p x)) [
    | inl e ↦ inr (rw e refl, (x, filter p xs, rw e refl))
    | inr e ↦ elim (any-filter p xs) [
      | inl (a, f) ↦ inl (rw (e, a) refl, rw (e, f) refl)
      | inr (a, (first, more, f)) ↦ inr (rw (e, a) refl, (first, more, rw (e, f) refl))
    ]
  ]

  -- What a decision that is carried out gives, and how the queue grows by it.
  abbrev Acted : IncompleteTurn → S → S → List RedoContext → List RedoContext → Type 0
  Acted turn s s' queue q =
      (o : Option RedoContext) × Handled turn s s' o × (q ≡ queue ++ in_front o [])

  redo-Acted :
      (turn : IncompleteTurn) (s read s' : S) (steps safe : List (IncompleteStep j.Value))
      (queue q : List RedoContext)
      → StepsRead turn s read steps
      → blocking turn steps ≡ []
      → act_on j store b now display task_id turn queue
          (safe_to_redo turn.turn_id turn.redo_group turn.redo_count safe)
          read
        ≡ (s', ok q)
      → Acted turn s s' queue q
  unfolding build_redo_context build_redo_context_from_events
  redo-Acted turn s read s' steps safe queue q were_read clear h =
      let (s1, o, built, h1) = after-eq-ok (build_redo_context j store task_id turn read) _ h in
      let (s2, events, got, h2) =
        after-eq-ok (store.get_turn_events task_id turn.turn_id read) _ built in
      let (same2, is_o) = returned_inj h2 in
      let (same1, is_q) = returned_inj h1 in
      let got_events = got ∙ ap (λ x. (x, ok events)) (same2 ∙ same1) in
      elim (Option-cases (find (λ e. is_turn_started e.event_type) events)) [
        | inl absent ↦
            let is_none : o ≡ none = sym is_o ∙ rw absent refl in
            (
              none,
              never_started read steps events were_read clear got_events absent refl,
              sym is_q
                  ∙ ap (λ x. push_redo j store b now display x queue) is_none
                  ∙ sym (append-nil queue),
            )
        | inr (started, found) ↦
            let is_some : o ≡ redo_of j task_id turn (some started) = sym is_o ∙ rw found refl in
            (
              _,
              redone read steps events started were_read clear got_events found refl,
              sym is_q ∙ ap (λ x. push_redo j store b now display x queue) is_some,
            )
      ]

  fail-Acted :
      (turn : IncompleteTurn) (s read s' : S) (steps : List (IncompleteStep j.Value))
      (first : IncompleteStep j.Value) (more : List (IncompleteStep j.Value))
      (queue q : List RedoContext)
      → StepsRead turn s read steps
      → blocking turn steps ≡ first ∷ more
      → act_on j store b now display task_id turn queue
          (requires_human_intervention turn.turn_id turn.redo_group (first ∷ more))
          read
        ≡ (s', ok q)
      → Acted turn s s' queue q
  fail-Acted turn s read s' steps first more queue q were_read in_the_way h =
      let (s1, u, blocked, h1) =
        after-eq-ok
          (fail_turn_with_non_idempotent_block j store b now display task_id turn.turn_id
            (first ∷ more) read)
          _ h in
      let (same, is_q) = returned_inj h1 in
      (
        none,
        failed read steps first more were_read in_the_way (blocked ∙ ap (λ x. (x, ok tt)) same)
            refl,
        sym is_q ∙ sym (append-nil queue),
      )

  turn-Acted :
      (turn : IncompleteTurn) (s read s' : S) (d : RecoveryDecision j.Value)
      (queue q : List RedoContext)
      → decide_turn_recovery j store task_id turn s ≡ (read, ok d)
      → act_on j store b now display task_id turn queue d read ≡ (s', ok q)
      → Acted turn s s' queue q
  turn-Acted turn s read s' d queue q decided acted =
      let (steps, were_read, is_d) = steps_read turn s read d decided in
      let own = filter (λ s. s.turn_id == turn.turn_id) steps in
      let h : act_on j store b now display task_id turn queue (decision j (blocks_redo j) turn own)
            read
          ≡ (s', ok q) =
        ap (λ x. act_on j store b now display task_id turn queue x read) is_d ∙ acted in
      elim (any-filter (blocks_redo j) own) [
        | inl (a, f) ↦ redo-Acted turn s read s' steps own queue q were_read f (rw a at h)
        | inr (a, (first, more, f)) ↦
            fail-Acted turn s read s' steps first more queue q were_read f (rw (a, f) at h)
      ]

  turns-Recovered :
      (turns : List IncompleteTurn) (s s' : S) (queue result : List RedoContext)
      → recover_turns j store b now display task_id queue turns s ≡ (s', ok result)
      → (rest : List RedoContext) × Recovered turns s s' rest × (result ≡ queue ++ rest)
  unfolding recover_turns
  turns-Recovered [] s s' queue result h =
      let (same, is_result) = returned_inj h in
      ([], (same, refl), sym is_result ∙ sym (append-nil queue))
  turns-Recovered (turn ∷ turns) s s' queue result h =
      let (s1, d, decided, h1) = after-eq-ok (decide_turn_recovery j store task_id turn s) _ h in
      let (s2, q, acted, h2) =
        after-eq-ok (act_on j store b now display task_id turn queue d s1) _ h1 in
      let (o, handled, is_q) = turn-Acted turn s s1 s2 d queue q decided acted in
      let (rest, recovered, is_result) = turns-Recovered turns s2 s' q result h2 in
      (
        in_front o rest,
        (s2, o, rest, handled, recovered, refl),
        is_result ∙ ap (λ x. x ++ rest) is_q ∙ in_front-append o queue rest,
      )

  -- When `recover_task` returns, the incomplete turns that the store lists for the task have been handled
  -- one after another, and the contexts are those that they give, in order. If no incomplete step of the
  -- turn stands in the way, and the turn's first `turn_started` is found, it gives the context that redoes
  -- it: the same turn and redo group, the redo count one higher, and the user's input from that event. If
  -- none stands in the way and there is no such event, it gives nothing. Otherwise the turn is failed, with
  -- the steps that stand in the way, and gives nothing.
  pub recover_task-ok :
      (s s' : S) (result : List RedoContext)
      → recover_task j store b now display task_id s ≡ (s', ok result)
      → (read : S) × (turns : List IncompleteTurn) × (store.get_incomplete_turns task_id s
          ≡ (read, ok turns))
        × Recovered turns read s' result
  unfolding recover_task
  recover_task-ok s s' result h =
      let (s1, turns, got, h1) = after-eq-ok (store.get_incomplete_turns task_id s) _ h in
      let (rest, recovered, is_result) = turns-Recovered turns s1 s' [] result h1 in
      (s1, turns, got, subst (Recovered turns s1 s') (sym is_result) recovered)
