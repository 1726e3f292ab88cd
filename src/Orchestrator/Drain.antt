-- ===== src/Orchestrator/Drain.antt =====
-- How far dispatch_pending of src/orchestrator.rs empties the queue of a type.
use mathlib.Core.List.{Permᴰ}
use lv_fixus.Dispatcher.Heap.{pop_greatest-Popped}
use lv_fixus.Common.{
  String, Option, none, some, ℕ, zero, suc, ◌+◌, ◌-◌, ◌≤◌, List, ◌≡◌, refl, sym, ap, ◌∙◌, arith,
  ◌⊎◌, inl, inr, length, Bool-cases, ltb, leb, string_eq,
}
use lv_fixus.Common.Map.{get, get-insert}
use lv_fixus.Dispatcher.{
  PriEntry, TypeQueue, Dispatcher, QueuedTurn, try_pop, on_turn_terminal, pending_count, in_flight,
  pop_greatest, take_entry, pop_queue, release, queue_or_default,
}
use lv_fixus.Dispatcher.Capacity.{try_pop-none_iff}
use lv_fixus.Error.{Result, ok, err}
use lv_fixus.Models.Failure.{redo_dispatch_failed}
use lv_fixus.Orchestrator.{Env, Orchestrator}
use lv_fixus.Orchestrator.Turns.{settle, dispatch_popped, dispatch_turns, dispatch_pending}
use lv_fixus.Orchestrator.Steady.{IsSteady, retry-R, fail-R}
use lv_fixus.Orchestrator.Moves.{Option-cases}

-- a release leaves what is pending
pending-release :
    (d : Dispatcher) (t u : String) (o : Option TypeQueue)
    → get t d.queues ≡ o
    → pending_count (release d t o) u ≡ pending_count d u
unfolding pending_count
pending-release d t u none h = refl
pending-release d t u (some q) h = elim (Bool-cases (ltb 0 q.in_flight)) [
  | inl busy ↦ rw busy (
      ground (
        arith,
        get-insert t u (record q { in_flight = q.in_flight - 1 }) d.queues,
        h,
        string_eq.same_iff t u,
      ))
  | inr idle ↦ rw idle refl
]

length-perm : {A : Type 0} {xs ys : List A} → Permᴰ xs ys → length xs ≡ length ys
length-perm Permᴰ.nil = refl
length-perm (Permᴰ.cons e p) = ap suc (length-perm p)
length-perm (Permᴰ.swap p q) = refl
length-perm (Permᴰ.trans p q) = length-perm p ∙ length-perm q

pending-terminal :
    (d : Dispatcher) (t u : String) → pending_count (on_turn_terminal d t) u ≡ pending_count d u
unfolding on_turn_terminal
pending-terminal d t u = pending-release d t u (get t d.queues) refl

take-some :
    (d : Dispatcher) (t : String) (q : TypeQueue) (o : Option (PriEntry × List PriEntry))
    (turn : QueuedTurn)
    → pop_greatest q.pending ≡ o
    → (take_entry d t q o).1 ≡ some turn
    → suc (pending_count (take_entry d t q o).0 t) ≡ length q.pending
unfolding pending_count
take-some d t q none turn h p = absurd (ground arith)
take-some d t q (some (e, rest)) turn h p =
    rw (get-insert t t (record { pending = rest; in_flight = q.in_flight + 1 }) d.queues) (
      rw ((string_eq.same_iff t t).1 refl)
        (sym (length-perm (pop_greatest-Popped q.pending (e, rest) h).0)))

pop-some :
    (d : Dispatcher) (t : String) (o : Option TypeQueue) (turn : QueuedTurn)
    → (pop_queue d t o).1 ≡ some turn
    → suc (pending_count (pop_queue d t o).0 t) ≡ length (queue_or_default o).pending
pop-some d t none turn = λ p. absurd (ground arith)
pop-some d t (some q) turn = elim (Bool-cases (leb d.max_concurrent q.in_flight)) [
  | inl full ↦ rw full (λ p. absurd (ground arith))
  | inr free ↦ rw free (take-some d t q (pop_greatest q.pending) turn refl)
]

pending-pop :
    (d : Dispatcher) (t : String) (turn : QueuedTurn)
    → (try_pop d t).1 ≡ some turn
    → suc (pending_count (try_pop d t).0 t) ≡ pending_count d t
unfolding try_pop pending_count
pending-pop d t turn p = pop-some d t (get t d.queues) turn p

-- no turn comes out: nothing has changed
take-none :
    (d : Dispatcher) (t : String) (q : TypeQueue) (o : Option (PriEntry × List PriEntry))
    → (take_entry d t q o).1 ≡ none
    → (take_entry d t q o).0 ≡ d
take-none d t q none h = refl
take-none d t q (some r) h = absurd (ground arith)

pop-none_of :
    (d : Dispatcher) (t : String) (o : Option TypeQueue)
    → (pop_queue d t o).1 ≡ none
    → (pop_queue d t o).0 ≡ d
pop-none_of d t none = λ h. refl
pop-none_of d t (some q) = elim (Bool-cases (leb d.max_concurrent q.in_flight)) [
  | inl full ↦ rw full (λ h. refl)
  | inr free ↦ rw free (take-none d t q (pop_greatest q.pending))
]

pop-none : (d : Dispatcher) (t : String) → (try_pop d t).1 ≡ none → (try_pop d t).0 ≡ d
unfolding try_pop
pop-none d t h = pop-none_of d t (get t d.queues) h

abbrev pub SameDispatcher : {S : Type 0} → Orchestrator S → Orchestrator S → Type 0
SameDispatcher o o' = o'.dispatcher ≡ o.dispatcher

pub SameDispatcher-IsSteady : {S : Type 0} → IsSteady {S = S} SameDispatcher
SameDispatcher-IsSteady = record {
  same = λ d r c. d;
  next = λ p q. q ∙ p;
  answer = λ task_id outcome o. refl;
}

module _ (E : Env) (t : String) where
  abbrev O : Type 0
  O = Orchestrator E.S

  abbrev left : O → ℕ
  left o = pending_count o.dispatcher t

  settle-left : (turn : QueuedTurn) (r : O × Result (Unit {0})) → left (settle E turn r) ≡ left r.0
  settle-left turn (o, ok u) = refl
  settle-left turn (o, err e) =
      ap (λ d. pending_count d t)
        (fail-R E SameDispatcher-IsSteady turn.task_id turn.turn_id redo_dispatch_failed
          "redo_dispatch_failed" (E.texts.error e) _)
      ∙ pending-terminal o.dispatcher turn.task_type t

  popped-left : (turn : QueuedTurn) (o : O) → left (dispatch_popped E turn o) ≡ left o
  unfolding dispatch_popped
  popped-left turn o =
      settle-left turn _
      ∙ ap (λ d. pending_count d t)
          (retry-R E SameDispatcher-IsSteady turn.task_id turn.turn_id turn.user_input
            turn.redo_group turn.redo_count turn.cached_llm _)

  turns-drained :
      (n : ℕ) (o : O) → left o ≤ n → (try_pop (dispatch_turns E n t o).dispatcher t).1 ≡ none
  unfolding dispatch_turns
  turns-drained zero o h = (try_pop-none_iff o.dispatcher t).1 (inr (omega (arith, h)))
  turns-drained (suc n) o h =
      let d = (try_pop o.dispatcher t).0 in
      elim (Option-cases (try_pop o.dispatcher t).1) [
        | inl e ↦ rw (e, dispatch_turns) (rw (pop-none o.dispatcher t e) e)
        | inr (turn, e) ↦
            rw (e, dispatch_turns)
              (turns-drained n (dispatch_popped E turn (record o { dispatcher = d })) (
                omega (
                  arith,
                  popped-left turn (record o { dispatcher = d }),
                  pending-pop o.dispatcher t turn e,
                  h,
                )))
      ]

-- When dispatch_pending returns, no further turn of the type comes out of the queue: the type is at its
-- capacity or nothing of it is pending, whatever the store answered and whichever dispatches failed on the
-- way. As many rounds as there are pending turns are enough.
pub dispatch_pending-drained :
    (E : Env) (t : String) (o : Orchestrator E.S)
    → let d = (dispatch_pending E t o).dispatcher in
      (d.max_concurrent ≤ in_flight d t) ⊎ (pending_count d t ≡ 0)
unfolding dispatch_pending
dispatch_pending-drained E t o =
    (try_pop-none_iff (dispatch_turns E (pending_count o.dispatcher t) t o).dispatcher t).0
      (turns-drained E t (pending_count o.dispatcher t) o (omega arith))
