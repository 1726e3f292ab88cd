-- ===== src/Registry/Answers.antt =====
-- The answer that a call of src/task_registry.rs leaves to a turn that waits.
use lv_fixus.Common.{
  String, false, Option, none, some, ℕ, ◌+◌, ◌≤◌, List, [], ◌∷◌, ◌≡◌, refl, arith, ◌⊎◌, inl, inr,
  ◌==◌, string_eq, nat_eq, Bool-cases, ap, ◌∙◌,
}
use lv_fixus.Common.Map.{get, get-insert, get-remove}
use lv_fixus.Registry.{
  TurnOutcome, PendingTurn, TaskRegistry, Call, register, complete, register_pending_turn,
  take_pending_turn, complete_pending_turn, complete_with, notify_old, step, run,
}
use lv_fixus.Registry.Waiters.{hit, answered}

answered-notify :
    (c : ℕ) (o : Option PendingTurn) (sent : List (ℕ × TurnOutcome))
    → answered c (notify_old o sent) ≡ hit c o + answered c sent
answered-notify c none sent = omega arith
answered-notify c (some t) sent = ground arith

answered_complete :
    (c : ℕ) (k : String) (outcome : TurnOutcome) (r : TaskRegistry) (o : Option PendingTurn)
    → answered c (complete_with k outcome (r, o)).0.sent ≡ hit c o + answered c r.sent
answered_complete c k outcome r none = omega arith
answered_complete c k outcome r (some t) = ground arith

active_complete :
    (k : String) (outcome : TurnOutcome) (r : TaskRegistry) (o : Option PendingTurn)
    → (complete_with k outcome (r, o)).0.active_turns ≡ r.active_turns
active_complete k outcome r none = refl
active_complete k outcome r (some t) = refl

-- what a call names
abbrev key_of : Call → String
key_of (register k t) = k
key_of (complete k outcome) = k

-- a call sends what was waiting under its name, and leaves the other names alone
step-answered :
    (c : ℕ) (r : TaskRegistry) (call : Call)
    → answered c (step r call).sent ≡ hit c (get (key_of call) r.active_turns) + answered c r.sent
unfolding step register_pending_turn complete_pending_turn take_pending_turn
step-answered c r (register k t) = answered-notify c (get k r.active_turns) r.sent
step-answered c r (complete k outcome) = answered_complete c k outcome _ (get k r.active_turns)

step-other :
    (k : String) (r : TaskRegistry) (call : Call)
    → (key_of call == k) ≡ false
    → get k (step r call).active_turns ≡ get k r.active_turns
unfolding step register_pending_turn complete_pending_turn take_pending_turn
step-other k r (register i t) e = get-insert i k t r.active_turns ∙ rw e refl
step-other k r (complete i outcome) e =
    ap (get k) (active_complete i outcome _ (get i r.active_turns))
    ∙ get-remove i k r.active_turns
    ∙ rw e refl

pub complete-get :
    (k : String) (outcome : TurnOutcome) (r : TaskRegistry)
    → get k (complete_pending_turn r k outcome).0.active_turns ≡ none
unfolding complete_pending_turn take_pending_turn
complete-get k outcome r =
    ap (get k) (active_complete k outcome _ (get k r.active_turns))
    ∙ get-remove k k r.active_turns
    ∙ ground (arith, string_eq.same_iff k k)

pub run-answered :
    (c : ℕ) (r : TaskRegistry) (cs : List Call) → answered c r.sent ≤ answered c (run r cs).sent
unfolding run
run-answered c r [] = omega arith
run-answered c r (call ∷ cs) =
    omega (arith, step-answered c r call, run-answered c (step r call) cs)

-- A turn that waits under a name waits there still, or its channel has got an answer.
pub run-waits :
    (k : String) (t : PendingTurn) (r : TaskRegistry) (cs : List Call)
    → get k r.active_turns ≡ some t
    → (get k (run r cs).active_turns ≡ some t)
      ⊎ (answered t.result_tx r.sent + 1 ≤ answered t.result_tx (run r cs).sent)
unfolding run
run-waits k t r [] h = inl h
run-waits k t r (call ∷ cs) h = elim (Bool-cases (key_of call == k)) [
  | inl e ↦
      let named : get (key_of call) r.active_turns ≡ some t =
        ap (λ i. get i r.active_turns) ((string_eq.same_iff (key_of call) k).0 e) ∙ h in
      let own : hit t.result_tx (some t) ≡ 1 =
        ground (arith, nat_eq.same_iff t.result_tx t.result_tx) in
      inr (
        omega (
          arith,
          step-answered t.result_tx r call,
          ap (hit t.result_tx) named,
          own,
          run-answered t.result_tx (step r call) cs,
        ))
  | inr e ↦ elim (run-waits k t (step r call) cs (step-other k r call e ∙ h)) [
    | inl g ↦ inl g
    | inr g ↦ inr (omega (arith, g, step-answered t.result_tx r call))
  ]
]
