-- ===== src/Dispatcher/Numbers.antt =====
-- The sequence numbers of pending entries in src/dispatcher.rs.
use mathlib.Core.List.{Permᴰ}
use lv_fixus.Common.{
  String, Option, none, some, List, [], ◌∷◌, ◌≡◌, ◌≢◌, refl, arith, ℕ, ◌+◌, ◌%◌, ◌≤◌, ◌<◌, inl, inr,
  string_eq, leb, ltb, length, Bool-cases, All-perm, All-map, ◌==◌,
}
use lv_fixus.Common.Map.{Map, get, insert, get-insert}
use lv_fixus.Dispatcher.{
  QueuedTurn, PriEntry, TypeQueue, Dispatcher, Call, call_enqueue, call_try_pop, call_terminal, new,
  enqueue, try_pop, on_turn_terminal, step, run, queue_or_default, pop_greatest, take_entry,
  pop_queue, release, u64_mod, new_entry,
}
use lv_fixus.Dispatcher.Heap.{pop_greatest-Popped}
use lv_fixus.Dispatcher.Order.{Numbered, IsNumbered, Distinct-perm}

Numbered-mono : (n m : ℕ) (es : List PriEntry) → n ≤ m → Numbered n es → Numbered m es
Numbered-mono n m es h (b, d) =
    (All-map (λ e. e.seq < n) (λ e. e.seq < m) es (λ e k. omega arith) b, d)

Numbered-push :
    (n : ℕ) (e : PriEntry) (es : List PriEntry)
    → e.seq ≡ n
    → Numbered n es
    → Numbered (n + 1) (e ∷ es)
Numbered-push n e es s (b, d) = (
  (omega arith, (Numbered-mono n (n + 1) es (omega arith) (b, d)).0),
  (All-map (λ x. x.seq < n) (λ x. x.seq ≢ e.seq) es (λ x k. omega arith) b, d),
)

Numbered-pop :
    (n : ℕ) (e : PriEntry) (es rest : List PriEntry)
    → Permᴰ es (e ∷ rest)
    → Numbered n es
    → Numbered n rest
Numbered-pop n e es rest p (b, d) = ((All-perm (λ x. x.seq < n) p b).1, (Distinct-perm p d).1)

set_Numbered :
    (m : Map String TypeQueue) (n : ℕ) (t u : String) (q : TypeQueue)
    → Numbered n q.pending
    → Numbered n (queue_or_default (get u m)).pending
    → Numbered n (queue_or_default (get u (insert t q m))).pending
set_Numbered m n t u q h k =
    rw (get-insert t u q m) (elim (Bool-cases (t == u)) [ inl e ↦ rw e h | inr e ↦ rw e k ])

take_IsNumbered :
    (d : Dispatcher) (t : String) (q : TypeQueue) (o : Option (PriEntry × List PriEntry))
    → pop_greatest q.pending ≡ o
    → Numbered d.next_seq q.pending
    → IsNumbered d
    → IsNumbered (take_entry d t q o).0
take_IsNumbered d t q none p n v = v
take_IsNumbered d t q (some (e, rest)) p n v = record {
  at = λ u.
      set_Numbered d.queues d.next_seq t u _
        (Numbered-pop d.next_seq e q.pending rest (pop_greatest-Popped q.pending (e, rest) p).0 n)
        (v.at u);
}

pop_IsNumbered :
    (d : Dispatcher) (t : String) (o : Option TypeQueue)
    → Numbered d.next_seq (queue_or_default o).pending
    → IsNumbered d
    → IsNumbered (pop_queue d t o).0
pop_IsNumbered d t none n v = v
pop_IsNumbered d t (some q) n v = elim (Bool-cases (leb d.max_concurrent q.in_flight)) [
  | inl full ↦ rw full v
  | inr free ↦ rw free (take_IsNumbered d t q (pop_greatest q.pending) refl n v)
]

release-IsNumbered :
    (d : Dispatcher) (t : String) (o : Option TypeQueue)
    → Numbered d.next_seq (queue_or_default o).pending
    → IsNumbered d
    → IsNumbered (release d t o)
release-IsNumbered d t none n v = v
release-IsNumbered d t (some q) n v = elim (Bool-cases (ltb 0 q.in_flight)) [
  | inl busy ↦ rw busy (record { at = λ u. set_Numbered d.queues d.next_seq t u _ n (v.at u) })
  | inr idle ↦ rw idle v
]

next_seq-eq : (n : ℕ) → n + 1 < u64_mod → (n + 1) % u64_mod ≡ n + 1
next_seq-eq n h = omega arith

enqueue-IsNumbered :
    (d : Dispatcher) (turn : QueuedTurn)
    → d.next_seq + 1 < u64_mod
    → IsNumbered d
    → IsNumbered (enqueue d turn).0
unfolding enqueue
enqueue-IsNumbered d turn h v = record {
  at = λ u. rw (next_seq-eq d.next_seq h) (
      set_Numbered d.queues (d.next_seq + 1) turn.task_type u _
        (Numbered-push d.next_seq (new_entry d turn) _ refl (v.at turn.task_type))
        (Numbered-mono d.next_seq (d.next_seq + 1) _ (omega arith) (v.at u)));
}

step-IsNumbered :
    (d : Dispatcher) (c : Call)
    → d.next_seq + 1 < u64_mod
    → IsNumbered d
    → IsNumbered (step d c) × ((step d c).next_seq ≤ d.next_seq + 1)
unfolding step try_pop on_turn_terminal
step-IsNumbered d (call_enqueue turn) h v =
    (enqueue-IsNumbered d turn h v, unfold enqueue in omega arith)
step-IsNumbered d (call_try_pop t) h v =
    (pop_IsNumbered d t (get t d.queues) (v.at t) v, ground arith)
step-IsNumbered d (call_terminal t) h v =
    (release-IsNumbered d t (get t d.queues) (v.at t) v, ground arith)

run-IsNumbered :
    (d : Dispatcher) (cs : List Call)
    → d.next_seq + length cs < u64_mod
    → IsNumbered d
    → IsNumbered (run d cs)
unfolding run
run-IsNumbered d [] h v = v
run-IsNumbered d (c ∷ cs) h v =
    let (v', b) = step-IsNumbered d c (omega arith) v in
    run-IsNumbered (step d c) cs (omega arith) v'

-- After fewer than 2^64 calls on a new dispatcher the entries pending for each type have distinct
-- sequence numbers, all below the next one, so `try_pop` finds the order that it relies on.
pub run-new-IsNumbered :
    (n : ℕ) (cs : List Call) → length cs < u64_mod → IsNumbered (run (new n) cs)
run-new-IsNumbered n cs h =
    run-IsNumbered (new n) cs (unfold new in omega arith)
      (unfold new get in record { at = λ t. (tt, tt) })
