-- ===== src/Dispatcher/Isolation.antt =====
-- Calls of src/dispatcher.rs on one task type, and the queues of the others.
use lv_fixus.Common.{
  String, Option, none, some, List, ◌≡◌, ◌≢◌, refl, arith, string_eq, Bool-cases, inl, inr, leb,
  ltb,
}
use lv_fixus.Common.Map.{Map, get, insert, get-insert}
use lv_fixus.Dispatcher.{
  PriEntry, TypeQueue, Dispatcher, Call, call_enqueue, call_try_pop, call_terminal, enqueue,
  try_pop, on_turn_terminal, step, queue_of, queue_or_default, pop_greatest, take_entry, pop_queue,
  release,
}

-- the type that a call is about
abbrev pub call_type : Call → String
call_type (call_enqueue turn) = turn.task_type
call_type (call_try_pop task_type) = task_type
call_type (call_terminal task_type) = task_type

insert_other :
    (m : Map String TypeQueue) (t u : String) (q : TypeQueue)
    → t ≢ u
    → queue_or_default (get u (insert t q m)) ≡ queue_or_default (get u m)
insert_other m t u q ne = ground (arith, get-insert t u q m, string_eq.same_iff t u)

pub insert_self :
    (m : Map String TypeQueue) (t : String) (q : TypeQueue) → get t (insert t q m) ≡ some q
insert_self m t q = ground (arith, get-insert t t q m, string_eq.same_iff t t)

take_other :
    (d : Dispatcher) (t u : String) (q : TypeQueue) (o : Option (PriEntry × List PriEntry))
    → t ≢ u
    → queue_of (take_entry d t q o).0 u ≡ queue_of d u
take_other d t u q none ne = refl
take_other d t u q (some (e, rest)) ne = insert_other d.queues t u _ ne

pop_other :
    (d : Dispatcher) (t u : String) (o : Option TypeQueue)
    → t ≢ u
    → queue_of (pop_queue d t o).0 u ≡ queue_of d u
pop_other d t u none ne = refl
pop_other d t u (some q) ne = elim (Bool-cases (leb d.max_concurrent q.in_flight)) [
  | inl full ↦ rw full refl
  | inr free ↦ rw free (take_other d t u q (pop_greatest q.pending) ne)
]

release_other :
    (d : Dispatcher) (t u : String) (o : Option TypeQueue)
    → t ≢ u
    → queue_of (release d t o) u ≡ queue_of d u
release_other d t u none ne = refl
release_other d t u (some q) ne = elim (Bool-cases (ltb 0 q.in_flight)) [
  | inl busy ↦ rw busy (insert_other d.queues t u _ ne)
  | inr idle ↦ rw idle refl
]

-- A call changes neither the pending turns nor the turns in flight of a type that it is not about.
pub step_other :
    (d : Dispatcher) (c : Call) (u : String)
    → call_type c ≢ u
    → queue_of (step d c) u ≡ queue_of d u
unfolding step enqueue try_pop on_turn_terminal
step_other d (call_enqueue turn) u ne = insert_other d.queues turn.task_type u _ ne
step_other d (call_try_pop t) u ne = pop_other d t u (get t d.queues) ne
step_other d (call_terminal t) u ne = release_other d t u (get t d.queues) ne
