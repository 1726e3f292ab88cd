-- ===== src/Store.antt =====
-- The trait `EventStore` of src/storage.rs, as far as the service, the recovery, the context and the
-- orchestrator call it. An operation
-- takes the state of the store and returns the next one, also when it fails. `V` is the type of JSON
-- values, `S` the state of the store.
use lv_fixus.Common.{String, Bool, Option, List, ◌≡◌, refl, ap, arith}
use lv_fixus.Common.Int.{ℤ}
use lv_fixus.Error.{AppError, Result, ok, err}
use lv_fixus.Models.TaskState.{TaskState}
use lv_fixus.Models.Event.{AgentEvent}
use lv_fixus.Models.Records.{IncompleteTurn, IncompleteStep, Task}

abbrev pub Action : Type 0 → Type 0 → Type 0
Action S A = S → S × Result A

abbrev pub after : {S A B : Type 0} → S × Result A → (A → Action S B) → S × Result B
after (s, ok a) k = k a s
after (s, err e) k = (s, err e)

module _ {S : Type 0} where
  -- `Ok(a)`, and `Err(e)` returned early
  abbrev pub return : {A : Type 0} → A → Action S A
  return a s = (s, ok a)

  abbrev pub fail : {A : Type 0} → AppError → Action S A
  fail e s = (s, err e)

  infixl 5 ◌>>=◌ ◌>>◌
  abbrev pub ◌>>=◌ : {A B : Type 0} → Action S A → (A → Action S B) → Action S B
  (m >>= k) s = after (m s) k

  abbrev pub ◌>>◌ : {A B : Type 0} → Action S A → Action S B → Action S B
  (m >> k) s = after (m s) (λ a. k)

pub record EventStore (V S : Type 0) : Type 0 where
  pub task_exists : String → Action S Bool
  pub is_task_ended : String → Action S Bool
  pub get_task_state : String → Action S (Option TaskState)
  pub get_max_turn_id : String → Action S ℤ
  pub write_event : AgentEvent V → Action S ℤ
  pub get_turn_events : String → ℤ → Action S (List (AgentEvent V))
  pub get_latest_summary : String → Action S (Option (AgentEvent V))
  pub get_incomplete_turns : String → Action S (List IncompleteTurn)
  pub get_incomplete_steps : String → Action S (List (IncompleteStep V))
  pub count_turns_after_seq : String → ℤ → Action S ℤ
  pub count_events_after_seq : String → ℤ → Action S ℤ
  pub get_llm_payloads_after_seq : String → ℤ → Action S (List String)
  pub get_task : String → Action S (Option (Task V))
  pub get_max_seq : String → Action S ℤ
  pub get_event : String → ℤ → Action S (Option (AgentEvent V))
  pub get_events_after_seq : String → ℤ → Action S (List (AgentEvent V))
  pub get_recent_turn_ids : String → ℤ → Action S (List ℤ)
  -- the task, its type and the payload
  pub publish_turn_begin : String → String → V → Action S (Unit {0})
  pub invalidate_projection : String → S → S

-- a chain that returned a value: each of its parts did
pub after-eq-ok :
    {S A B : Type 0} (r : S × Result A) (k : A → Action S B) {s' : S} {b : B}
    → after r k ≡ (s', ok b)
    → (s : S) × (a : A) × (r ≡ (s, ok a)) × (k a s ≡ (s', ok b))
after-eq-ok (s, ok a) k h = (s, a, refl, h)
after-eq-ok (s, err e) k h = absurd (ground arith)

pub returned_inj :
    {S A : Type 0} {s t : S} {a b : A}
    → ◌≡◌ {A = S × Result A} (s, ok a) (t, ok b)
    → (s ≡ t) × (a ≡ b)
returned_inj {a = a} h = (ap (λ r. r.0) h, ap (λ r. elim r.1 [ ok x ↦ x | err e ↦ a ]) h)
