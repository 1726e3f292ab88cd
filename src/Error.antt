-- ===== src/Error.antt =====
-- `AppError` of src/error.rs, with the constructors that the modelled code returns. The text of a
-- lifecycle error is kept as what it is formatted from.
use lv_fixus.Common.{String, ◌≡◌, refl, arith}
use lv_fixus.Models.EventType.{EventType, EventScope}
use lv_fixus.Models.TaskState.{TaskState}

pub data Invariant : Type 0 where
  turn_id_must_be_null step_id_must_be_null : EventScope → EventType → Invariant
  turn_id_must_be_set step_id_must_be_set : EventType → Invariant
  first_must_be_created : EventType → Invariant
  illegal_transition : TaskState → TaskState → EventType → Invariant

pub data AppError : Type 0 where
  task_not_found : String → AppError
  task_already_ended : String → AppError
  lifecycle_invariant : Invariant → AppError
  invalid_task_state_transition : String → TaskState → TaskState → AppError
  payload_validation : EventType → String → AppError
  invalid_event_type : String → AppError
  internal : String → AppError
  protocol : String → AppError

pub data Result {ℓ} (A : Type ℓ) : Type ℓ where
  ok : A → Result A
  err : AppError → Result A

-- `?` and the sequencing of statements
module _ {ℓ κ} {A : Type ℓ} {B : Type κ} where
  infixl 5 ◌>>=◌
  abbrev pub ◌>>=◌ : Result A → (A → Result B) → Result B
  err e >>= k = err e
  ok x >>= k = k x

  -- a chain that returns a value: both of its parts did
  pub >>=-eq-ok :
      (r : Result A) (k : A → Result B) {y : B}
      → (r >>= k) ≡ ok y
      → (x : A) × (r ≡ ok x) × (k x ≡ ok y)
  >>=-eq-ok (err e) k h = ground arith
  >>=-eq-ok (ok x) k h = (x, refl, h)

infixl 5 ◌>>◌
abbrev pub ◌>>◌ {κ} : {B : Type κ} → Result (Unit {0}) → Result B → Result B
err e >> k = err e
ok _ >> k = k
