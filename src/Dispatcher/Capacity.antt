-- ===== src/Dispatcher/Capacity.antt =====
-- The capacity gate of src/dispatcher.rs, over sequences of calls.
use lv_fixus.Common.{
  String, Option, none, some, List, [], ◌∷◌, ◌≡◌, refl, arith, ℕ, ◌≤◌, ◌<◌, ◌↔◌, ◌⊎◌, inl, inr,
  if◌then◌else◌, string_eq, leb, ltb, length, Bool-cases, ◌∙◌,
}
use lv_fixus.Common.Map.{get, insert, get-insert}
use lv_fixus.Dispatcher.{
  PriEntry, TypeQueue, Dispatcher, Call, call_enqueue, call_try_pop, call_terminal, new, enqueue,
  try_pop, on_turn_terminal, step, run, queue_of, queue_or_default, pop_greatest, take_entry,
  pop_queue, release, in_flight, pending_count,
}

-- The turns in flight of each type are within the capacity, which is at least one.
pub record WithinCapacity (d : Dispatcher) : Type 0 where
  pub positive : 1 ≤ d.max_concurrent
  pub within : (t : String) → (queue_of d t).in_flight ≤ d.max_concurrent

set_queue :
    (d : Dispatcher) (t u : String) (q : TypeQueue)
    → q.in_flight ≤ d.max_concurrent
    → (queue_of d u).in_flight ≤ d.max_concurrent
    → (queue_or_default (get u (insert t q d.queues))).in_flight ≤ d.max_concurrent
set_queue d t u q h k = ground (arith, get-insert t u q d.queues)

take-WithinCapacity :
    (d : Dispatcher) (t : String) (q : TypeQueue) (o : Option (PriEntry × List PriEntry))
    → q.in_flight < d.max_concurrent
    → WithinCapacity d
    → WithinCapacity (take_entry d t q o).0
take-WithinCapacity d t q none h v = v
take-WithinCapacity d t q (some (e, rest)) h v = record {
  positive = v.positive;
  within = λ u. set_queue d t u _ (omega arith) (v.within u);
}

pop-WithinCapacity :
    (d : Dispatcher) (t : String) (o : Option TypeQueue)
    → WithinCapacity d
    → WithinCapacity (pop_queue d t o).0
pop-WithinCapacity d t none v = v
pop-WithinCapacity d t (some q) v = elim (Bool-cases (leb d.max_concurrent q.in_flight)) [
  | inl full ↦ rw full v
  | inr free ↦ rw free (take-WithinCapacity d t q (pop_greatest q.pending) (ground arith) v)
]

release-WithinCapacity :
    (d : Dispatcher) (t : String) (o : Option TypeQueue)
    → get t d.queues ≡ o
    → WithinCapacity d
    → WithinCapacity (release d t o)
release-WithinCapacity d t none p v = v
release-WithinCapacity d t (some q) p v = elim (Bool-cases (ltb 0 q.in_flight)) [
  | inl busy ↦ rw busy (record {
    positive = v.positive;
    within = λ u. set_queue d t u _ (ground (arith, v.within t)) (v.within u);
  })
  | inr idle ↦ rw idle v
]

-- Each call keeps the turns in flight within the capacity.
pub step-WithinCapacity : (d : Dispatcher) (c : Call) → WithinCapacity d → WithinCapacity (step d c)
unfolding step enqueue try_pop on_turn_terminal
step-WithinCapacity d (call_enqueue turn) v = record {
  positive = v.positive;
  within = λ u. set_queue d turn.task_type u _ (v.within turn.task_type) (v.within u);
}
step-WithinCapacity d (call_try_pop t) v = pop-WithinCapacity d t (get t d.queues) v
step-WithinCapacity d (call_terminal t) v = release-WithinCapacity d t (get t d.queues) refl v

run-WithinCapacity :
    (d : Dispatcher) (cs : List Call) → WithinCapacity d → WithinCapacity (run d cs)
unfolding run
run-WithinCapacity d [] v = v
run-WithinCapacity d (c ∷ cs) v = run-WithinCapacity (step d c) cs (step-WithinCapacity d c v)

new-WithinCapacity : (n : ℕ) → WithinCapacity (new n)
unfolding new get
new-WithinCapacity n = record { positive = ground arith; within = λ t. ground arith }

max_concurrent-step : (d : Dispatcher) (c : Call) → (step d c).max_concurrent ≡ d.max_concurrent
unfolding step enqueue try_pop on_turn_terminal
max_concurrent-step d (call_enqueue turn) = refl
max_concurrent-step d (call_try_pop t) = ground arith
max_concurrent-step d (call_terminal t) = ground arith

max_concurrent-run :
    (d : Dispatcher) (cs : List Call) → (run d cs).max_concurrent ≡ d.max_concurrent
unfolding run
max_concurrent-run d [] = refl
max_concurrent-run d (c ∷ cs) = max_concurrent-run (step d c) cs ∙ max_concurrent-step d c

-- After any calls on a new dispatcher, each type has at most `max_concurrent` turns in flight, and at
-- most one where that is 0.
pub run-in_flight-le :
    (n : ℕ) (cs : List Call) (t : String)
    → in_flight (run (new n) cs) t ≤ (if ltb n 1 then 1 else n)
unfolding in_flight
run-in_flight-le n cs t =
    let v = run-WithinCapacity (new n) cs (new-WithinCapacity n) in
    let e : (run (new n) cs).max_concurrent ≡ (if ltb n 1 then 1 else n) =
      max_concurrent-run (new n) cs ∙ (unfold new in refl) in
    omega (arith, v.within t, e)

none_of_pop : (es : List PriEntry) → (pop_greatest es ≡ none) ↔ (length es ≡ 0)
unfolding pop_greatest
none_of_pop [] = (λ h. refl, λ h. refl)
none_of_pop (e ∷ es) = (λ h. absurd (ground arith), λ h. absurd (omega arith))

take_none :
    (d : Dispatcher) (t : String) (q : TypeQueue) (o : Option (PriEntry × List PriEntry))
    → ((take_entry d t q o).1 ≡ none) ↔ (o ≡ none)
take_none d t q none = (λ h. refl, λ h. refl)
take_none d t q (some (e, rest)) = (λ h. absurd (ground arith), λ h. absurd (ground arith))

pop_none :
    (d : Dispatcher) (t : String) (o : Option TypeQueue)
    → ((pop_queue d t o).1 ≡ none) ↔ (
        (d.max_concurrent ≤ (queue_or_default o).in_flight)
        ⊎ (length (queue_or_default o).pending ≡ 0))
pop_none d t none = (λ h. inr refl, λ h. refl)
pop_none d t (some q) = elim (Bool-cases (leb d.max_concurrent q.in_flight)) [
  | inl full ↦ rw full (λ h. inl (ground arith), λ h. refl)
  | inr free ↦ rw free (
    λ h. inr ((none_of_pop q.pending).0 ((take_none d t q (pop_greatest q.pending)).0 h)),
    λ h. (take_none d t q (pop_greatest q.pending)).1 ((none_of_pop q.pending).1 (ground arith)),
  )
]

-- No turn comes out exactly when the type is at its capacity or has nothing pending: a free slot is
-- never withheld from a pending turn.
pub try_pop-none_iff :
    (d : Dispatcher) (t : String)
    → ((try_pop d t).1 ≡ none) ↔ ((d.max_concurrent ≤ in_flight d t) ⊎ (pending_count d t ≡ 0))
unfolding try_pop in_flight pending_count
try_pop-none_iff d t = pop_none d t (get t d.queues)
