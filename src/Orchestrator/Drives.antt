-- ===== src/Orchestrator/Drives.antt =====
-- How the operations of src/orchestrator.rs move the dispatcher and the registry that they share.
use lv_fixus.Common.{
  String, ℕ, ◌+◌, ◌≤◌, List, [], ◌∷◌, ◌++◌, ◌≡◌, refl, sym, ap, ◌∙◌, arith, if◌then◌else◌, leb, ltb,
  ◌&&◌, ◌⊎◌, inl, inr,
}
use lv_fixus.Dispatcher
use lv_fixus.Dispatcher.{Dispatcher}
use lv_fixus.Registry
use lv_fixus.Registry.{TaskRegistry, TurnOutcome}
use lv_fixus.Registry.Waiters.{registered}
use lv_fixus.Error.{AppError, Result, ok, err}
use lv_fixus.Store.{Action, after}
use lv_fixus.Orchestrator.{Orchestrator, with_store, caught}

pub run-++ :
    (d : Dispatcher) (cs ds : List Dispatcher.Call)
    → Dispatcher.run d (cs ++ ds) ≡ Dispatcher.run (Dispatcher.run d cs) ds
unfolding Dispatcher.run
run-++ d [] ds = refl
run-++ d (c ∷ cs) ds = run-++ (Dispatcher.step d c) cs ds

pub registry_run-++ :
    (r : TaskRegistry) (cs ds : List Registry.Call)
    → Registry.run r (cs ++ ds) ≡ Registry.run (Registry.run r cs) ds
unfolding Registry.run
registry_run-++ r [] ds = refl
registry_run-++ r (c ∷ cs) ds = registry_run-++ (Registry.step r c) cs ds

registered-++ :
    (c : ℕ) (cs ds : List Registry.Call)
    → registered c (cs ++ ds) ≡ registered c cs + registered c ds
registered-++ c [] ds = omega arith
registered-++ c (Registry.register t p ∷ cs) ds = omega (arith, registered-++ c cs ds)
registered-++ c (Registry.complete t p ∷ cs) ds = registered-++ c cs ds

-- 1 if the channel was made while the count went from `lo` to `hi`
abbrev pub made : ℕ → ℕ → ℕ → ℕ
made c lo hi = if leb lo c && ltb c hi then 1 else 0

made_split : (c a b d : ℕ) → a ≤ b → b ≤ d → made c a b + made c b d ≡ made c a d
made_split c a b d h k = ground arith

-- From one state to another by calls on the dispatcher and the registry; each channel is registered
-- once, when it is made.
pub record Advances {S : Type 0} (o o' : Orchestrator S) : Type 0 where
  pub calls : List Dispatcher.Call
  pub dispatched : o'.dispatcher ≡ Dispatcher.run o.dispatcher calls
  pub answers : List Registry.Call
  pub answered : o'.registry ≡ Registry.run o.registry answers
  pub channels_grow : o.channels ≤ o'.channels
  pub fresh : (c : ℕ) → registered c answers ≡ made c o.channels o'.channels

pub Result-cases :
    {A : Type 0} (r : Result A) → ((a : A) × (r ≡ ok a)) ⊎ ((e : AppError) × (r ≡ err e))
Result-cases (ok a) = inl (a, refl)
Result-cases (err e) = inr (e, refl)

module _ {S : Type 0} where
  pub stays :
      {o o' : Orchestrator S}
      → o'.dispatcher ≡ o.dispatcher
      → o'.registry ≡ o.registry
      → o'.channels ≡ o.channels
      → Advances o o'
  unfolding Dispatcher.run Registry.run
  stays d r c = record {
    calls = [];
    dispatched = d;
    answers = [];
    answered = r;
    channels_grow = omega (arith, c);
    fresh = λ i. ground (arith, c);
  }

  pub go_on : {o o' o'' : Orchestrator S} → Advances o o' → Advances o' o'' → Advances o o''
  go_on {o} {o'} {o''} p q = record {
    calls = p.calls ++ q.calls;
    dispatched =
        q.dispatched
        ∙ ap (λ d. Dispatcher.run d q.calls) p.dispatched
        ∙ sym (run-++ o.dispatcher p.calls q.calls);
    answers = p.answers ++ q.answers;
    answered =
        q.answered
        ∙ ap (λ r. Registry.run r q.answers) p.answered
        ∙ sym (registry_run-++ o.registry p.answers q.answers);
    channels_grow = omega (arith, p.channels_grow, q.channels_grow);
    fresh = λ c. omega (
      arith,
      registered-++ c p.answers q.answers,
      p.fresh c,
      q.fresh c,
      made_split c o.channels o'.channels o''.channels p.channels_grow q.channels_grow,
    );
  }

  -- an operation that only moves the shared state by such calls
  abbrev pub Moves : {A : Type 0} → Action (Orchestrator S) A → Type 0
  Moves m = (o : Orchestrator S) → Advances o (m o).0

  module _ {A B : Type 0} where
    pub after-Advances :
        {o : Orchestrator S} (r : Orchestrator S × Result A) (k : A → Action (Orchestrator S) B)
        → Advances o r.0
        → ((a : A) → Moves (k a))
        → Advances o (after r k).0
    after-Advances (o', ok a) k p q = go_on p (q a o')
    after-Advances (o', err e) k p q = p

  module _ {A : Type 0} where
    pub caught-Advances :
        {o : Orchestrator S} (r : Orchestrator S × Result A)
        → Advances o r.0
        → Advances o (caught r).0
    caught-Advances (o', r) p = p

    pub stored : {o : Orchestrator S} (r : S × Result A) → Advances o (with_store o r).0
    stored (s, r) = stays refl refl refl

  -- one call on the dispatcher
  pub calls_once :
      (o : Orchestrator S) (c : Dispatcher.Call) (d : Dispatcher)
      → d ≡ Dispatcher.step o.dispatcher c
      → Advances o (record o { dispatcher = d })
  unfolding Dispatcher.run Registry.run
  calls_once o c d h = record {
    calls = c ∷ [];
    dispatched = h;
    answers = [];
    answered = refl;
    channels_grow = omega arith;
    fresh = λ i. ground arith;
  }

  -- one answer, on a channel that there was before
  pub answers_once :
      (o : Orchestrator S) (task_id : String) (outcome : TurnOutcome) (r : TaskRegistry)
      → r ≡ Registry.step o.registry (Registry.complete task_id outcome)
      → Advances o (record o { registry = r })
  unfolding Dispatcher.run Registry.run
  answers_once o task_id outcome r h = record {
    calls = [];
    dispatched = refl;
    answers = Registry.complete task_id outcome ∷ [];
    answered = h;
    channels_grow = omega arith;
    fresh = λ i. ground arith;
  }
