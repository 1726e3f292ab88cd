-- ===== src/Dispatcher/Order.antt =====
-- The order in which turns come out of a queue of src/dispatcher.rs.
use mathlib.Core.List.{Permᴰ}
use mathlib.Core.Path.{subst}
use lv_fixus.Common.{
  String, false, Option, none, some, List, [], ◌∷◌, ◌≡◌, ◌≢◌, refl, arith, ℕ, ◌+◌, ◌<◌, ◌⊎◌, inl,
  inr, string_eq, leb, Bool-cases, All, All-perm, some_inj, sym,
}
use lv_fixus.Common.Int.{◌<ℤ◌, int_beq_iff}
use lv_fixus.Common.Map.{get}
use lv_fixus.Dispatcher.{
  QueuedTurn, PriEntry, TypeQueue, Dispatcher, try_pop, queue_of, queue_or_default, pop_greatest,
  take_entry, pop_queue, greater,
}
use lv_fixus.Dispatcher.Heap.{pop_greatest-Popped}
use lv_fixus.Dispatcher.Isolation.{insert_self}

-- No two entries have the same sequence number.
abbrev pub Distinct : List PriEntry → Type 0
Distinct [] = Unit
Distinct (x ∷ xs) = All (λ y. y.seq ≢ x.seq) xs × Distinct xs

-- Each entry was enqueued before the next sequence number, and no two at once.
abbrev pub Numbered : ℕ → List PriEntry → Type 0
Numbered next es = All (λ e. e.seq < next) es × Distinct es

pub Distinct-perm : {es fs : List PriEntry} → Permᴰ es fs → Distinct es → Distinct fs
Distinct-perm Permᴰ.nil h = h
Distinct-perm (Permᴰ.cons {a = a} {b = b} {l₂ = l} e p) h = (
  subst (λ x. All (λ y. y.seq ≢ x.seq) l) e (All-perm (λ y. y.seq ≢ a.seq) p h.0),
  Distinct-perm p h.1,
)
Distinct-perm (Permᴰ.swap {a = a} {b = b} {b' = d} {l = l} p q) h =
    subst (λ x. Distinct (x ∷ d ∷ l)) q
      (subst (λ y. Distinct (b ∷ y ∷ l)) p ((λ e. h.0.0 (sym e), h.1.0), (h.0.1, h.1.1)))
Distinct-perm (Permᴰ.trans p q) h = Distinct-perm q (Distinct-perm p h)

-- `e` comes before `x`: a higher priority, or the same and enqueued earlier.
abbrev pub Before : PriEntry → PriEntry → Type 0
Before e x = (x.priority <ℤ e.priority) ⊎ ((x.priority ≡ e.priority) × (e.seq < x.seq))

Before-of : (m e : PriEntry) → greater e m ≡ false → e.seq ≢ m.seq → Before m e
Before-of m e h n = ground (arith, int_beq_iff e.priority m.priority)

All-zip :
    (m : PriEntry) (es : List PriEntry)
    → All (λ e. greater e m ≡ false) es
    → All (λ e. e.seq ≢ m.seq) es
    → All (Before m) es
All-zip m [] h k = tt
All-zip m (e ∷ es) h k = (Before-of m e h.0 k.0, All-zip m es h.1 k.1)

-- The turn that came out of `t` between two states of the dispatcher.
abbrev pub Taken : TypeQueue → TypeQueue → QueuedTurn → Type 0
Taken q q' turn =
    (e : PriEntry) × (e.turn ≡ turn)
    × Permᴰ q.pending (e ∷ q'.pending)
    × All (Before e) q'.pending
    × (q'.in_flight ≡ q.in_flight + 1)

take_Taken :
    (d : Dispatcher) (t : String) (q : TypeQueue) (o : Option (PriEntry × List PriEntry))
    {turn : QueuedTurn}
    → pop_greatest q.pending ≡ o
    → Distinct q.pending
    → (take_entry d t q o).1 ≡ some turn
    → Taken q (queue_of (take_entry d t q o).0 t) turn
take_Taken d t q none p n h = absurd (ground arith)
take_Taken d t q (some (e, rest)) p n h =
    let (perm, top) = pop_greatest-Popped q.pending (e, rest) p in
    rw (insert_self d.queues t (record { pending = rest; in_flight = q.in_flight + 1 }))
      (e, some_inj h, perm, All-zip e rest top (Distinct-perm perm n).0, refl)

pop_Taken :
    (d : Dispatcher) (t : String) (o : Option TypeQueue) {turn : QueuedTurn}
    → Distinct (queue_or_default o).pending
    → (pop_queue d t o).1 ≡ some turn
    → Taken (queue_or_default o) (queue_of (pop_queue d t o).0 t) turn
pop_Taken d t none n h = absurd (ground arith)
pop_Taken d t (some q) n h = elim (Bool-cases (leb d.max_concurrent q.in_flight)) [
  | inl full ↦ absurd (ground arith)
  | inr free ↦ rw free (take_Taken d t q (pop_greatest q.pending) refl n (rw free at h))
]

-- Every type's queue is numbered.
pub record IsNumbered (d : Dispatcher) : Type 0 where
  pub at : (t : String) → Numbered d.next_seq (queue_of d t).pending

-- The turn that `try_pop` returns is one of those pending for its type, the others stay pending, each
-- of them has a lower priority or the same and was enqueued later, and one more is in flight.
pub try_pop_order :
    (d : Dispatcher) (t : String) {turn : QueuedTurn}
    → IsNumbered d
    → (try_pop d t).1 ≡ some turn
    → Taken (queue_of d t) (queue_of (try_pop d t).0 t) turn
unfolding try_pop
try_pop_order d t v h = pop_Taken d t (get t d.queues) (v.at t).1 h
