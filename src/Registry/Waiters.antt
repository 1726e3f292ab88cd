-- ===== src/Registry/Waiters.antt =====
-- Registrations and answers on a channel, over sequences of calls of src/task_registry.rs.
use mathlib.Core.Path.{subst}
use lv_fixus.Common.{
  String, Option, none, some, ℕ, ◌+◌, List, [], ◌∷◌, ◌≡◌, refl, sym, ◌∙◌, ap, arith, if◌then◌else◌,
  ◌==◌, string_eq, nat_eq, count, Bool-cases, inl, inr,
}
use lv_fixus.Common.Map.{Map, get, insert, remove, get-insert, get-remove}
use lv_fixus.Registry.{
  TurnOutcome, PendingTurn, TaskRegistry, Call, register, complete, register_pending_turn,
  take_pending_turn, complete_pending_turn, complete_with, notify_old, step, run, new,
}

abbrev pub hit : ℕ → Option PendingTurn → ℕ
hit c none = 0
hit c (some t) = if t.result_tx == c then 1 else 0

-- how many turns wait on the channel, how many answers were sent on it, how often it was registered
unfoldable pub waiting : ℕ → Map String PendingTurn → ℕ
waiting c [] = 0
waiting c ((k, t) ∷ m) = hit c (some t) + waiting c m

abbrev pub answered : ℕ → List (ℕ × TurnOutcome) → ℕ
answered c sent = count (λ x. x.0 == c) sent

abbrev pub registered : ℕ → List Call → ℕ
registered c [] = 0
registered c (register task_id turn ∷ cs) = hit c (some turn) + registered c cs
registered c (complete task_id outcome ∷ cs) = registered c cs

abbrev HasNoDup : Map String PendingTurn → Type 0
HasNoDup [] = Unit
HasNoDup ((k, t) ∷ m) = (get k m ≡ none) × HasNoDup m

waiting-insert :
    (c : ℕ) (k : String) (t : PendingTurn) (m : Map String PendingTurn)
    → waiting c (insert k t m) + hit c (get k m) ≡ waiting c m + hit c (some t)
unfolding waiting insert get
waiting-insert c k t [] = omega arith
waiting-insert c k t ((j, u) ∷ m) = elim (Bool-cases (j == k)) [
  | inl e ↦ rw e (omega arith)
  | inr e ↦ rw e (omega (arith, waiting-insert c k t m))
]

waiting-remove_absent :
    (c : ℕ) (k : String) (m : Map String PendingTurn)
    → get k m ≡ none
    → waiting c (remove k m) ≡ waiting c m
unfolding waiting remove get
waiting-remove_absent c k [] h = refl
waiting-remove_absent c k ((j, u) ∷ m) h = elim (Bool-cases (j == k)) [
  | inl e ↦ absurd (ground (arith, e, h))
  | inr e ↦ rw e (omega (arith, waiting-remove_absent c k m (rw e at h)))
]

waiting-remove :
    (c : ℕ) (k : String) (m : Map String PendingTurn)
    → HasNoDup m
    → waiting c (remove k m) + hit c (get k m) ≡ waiting c m
unfolding waiting remove get
waiting-remove c k [] h = omega arith
waiting-remove c k ((j, u) ∷ m) h = elim (Bool-cases (j == k)) [
  | inl e ↦ rw e (
      omega (
        arith,
        waiting-remove_absent c k m (ap (λ i. get i m) (sym ((string_eq.same_iff j k).0 e)) ∙ h.0),
      ))
  | inr e ↦ rw e (omega (arith, waiting-remove c k m h.1))
]

insert-HasNoDup :
    (k : String) (t : PendingTurn) (m : Map String PendingTurn)
    → HasNoDup m
    → HasNoDup (insert k t m)
unfolding insert get
insert-HasNoDup k t [] h = (refl, tt)
insert-HasNoDup k t ((j, u) ∷ m) h = elim (Bool-cases (j == k)) [
  | inl e ↦ rw e (ap (λ i. get i m) (sym ((string_eq.same_iff j k).0 e)) ∙ h.0, h.1)
  | inr e ↦ rw e (
    ground (arith, get-insert k j t m, string_eq.same_iff k j, string_eq.same_iff j k, h.0, e),
    insert-HasNoDup k t m h.1,
  )
]

remove-HasNoDup : (k : String) (m : Map String PendingTurn) → HasNoDup m → HasNoDup (remove k m)
unfolding remove get
remove-HasNoDup k [] h = tt
remove-HasNoDup k ((j, u) ∷ m) h = elim (Bool-cases (j == k)) [
  | inl e ↦ rw e (remove-HasNoDup k m h.1)
  | inr e ↦ rw e (ground (arith, get-remove k j m, h.0), remove-HasNoDup k m h.1)
]

answered-notify_old :
    (c : ℕ) (o : Option PendingTurn) (sent : List (ℕ × TurnOutcome))
    → answered c (notify_old o sent) ≡ hit c o + answered c sent
answered-notify_old c none sent = omega arith
answered-notify_old c (some t) sent = ground arith

-- what completing leaves, given what was taken out
completed-balance :
    (c : ℕ) (task_id : String) (outcome : TurnOutcome) (r : TaskRegistry) (o : Option PendingTurn)
    → let after = (complete_with task_id outcome (r, o)).0 in
      (after.active_turns ≡ r.active_turns) × (answered c after.sent ≡ hit c o + answered c r.sent)
completed-balance c task_id outcome r none = (refl, omega arith)
completed-balance c task_id outcome r (some t) = (refl, ground arith)

record IsBalanced (c n : ℕ) (r : TaskRegistry) : Type 0 where
  no_dup : HasNoDup r.active_turns
  balance : waiting c r.active_turns + answered c r.sent ≡ n

step-IsBalanced :
    (c n : ℕ) (r : TaskRegistry) (call : Call)
    → IsBalanced c n r
    → IsBalanced c (n + registered c (call ∷ [])) (step r call)
unfolding step register_pending_turn complete_pending_turn take_pending_turn
step-IsBalanced c n r (register k t) v = record {
  no_dup = insert-HasNoDup k t r.active_turns v.no_dup;
  balance = omega (
    arith,
    v.balance,
    waiting-insert c k t r.active_turns,
    answered-notify_old c (get k r.active_turns) r.sent,
  );
}
step-IsBalanced c n r (complete k outcome) v =
    let removed = record r { active_turns = remove k r.active_turns } in
    let (same, sent_one) = completed-balance c k outcome removed (get k r.active_turns) in
    record {
      no_dup = subst HasNoDup (sym same) (remove-HasNoDup k r.active_turns v.no_dup);
      balance = omega (
        arith,
        v.balance,
        waiting-remove c k r.active_turns v.no_dup,
        sent_one,
        ap (waiting c) same,
      );
    }

run-IsBalanced :
    (c n : ℕ) (r : TaskRegistry) (cs : List Call)
    → IsBalanced c n r
    → IsBalanced c (n + registered c cs) (run r cs)
unfolding run
run-IsBalanced c n r [] v = record { no_dup = v.no_dup; balance = omega (arith, v.balance) }
run-IsBalanced c n r (register k t ∷ cs) v =
    let w =
      run-IsBalanced c (n + registered c (register k t ∷ [])) (step r (register k t)) cs
        (step-IsBalanced c n r (register k t) v) in
    record { no_dup = w.no_dup; balance = omega (arith, w.balance) }
run-IsBalanced c n r (complete k o ∷ cs) v =
    let w =
      run-IsBalanced c (n + registered c (complete k o ∷ [])) (step r (complete k o)) cs
        (step-IsBalanced c n r (complete k o) v) in
    record { no_dup = w.no_dup; balance = omega (arith, w.balance) }

-- After any sequence of registrations and completions on a new registry, the answers sent on a channel
-- and the turns that still wait on it are together as many as the registrations with it: no waiting call
-- is lost, and one that was registered once is answered at most once.
pub run-new-balance :
    (c : ℕ) (cs : List Call)
    → waiting c (run new cs).active_turns + answered c (run new cs).sent ≡ registered c cs
unfolding new waiting
run-new-balance c cs =
    omega (arith, (run-IsBalanced c 0 new cs (record { no_dup = tt; balance = refl })).balance)
