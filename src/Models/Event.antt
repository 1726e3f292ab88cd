-- ===== src/Models/Event.antt =====
-- `AgentEvent` of src/models.rs and its scope check. `V` is the type of JSON values; the time stamp,
-- which the store overwrites, is a number of nanoseconds.
pub mod Scope
use lv_fixus.Common.{String, Bool, true, false, Option, none, some, ℕ, if◌then◌else◌}
use lv_fixus.Common.Int.{ℤ, pos}
use lv_fixus.Models.EventType.{EventType, EventScope, task, session, turn, step, scope}
use lv_fixus.Error.{
  AppError, lifecycle_invariant, Result, ok, err, turn_id_must_be_null, step_id_must_be_null,
  turn_id_must_be_set, step_id_must_be_set,
}

pub record AgentEvent (V : Type 0) : Type 0 where
  pub task_id : String
  pub seq : ℤ
  pub turn_id : Option ℤ
  pub step_id : Option String
  pub event_type : EventType
  pub schema_version : ℕ
  pub payload : V
  pub created_at : ℕ

abbrev pub is_some {ℓ} : {A : Type ℓ} → Option A → Bool
is_some none = false
is_some (some _) = true

abbrev pub is_none {ℓ} : {A : Type ℓ} → Option A → Bool
is_none none = true
is_none (some _) = false

module _ {V : Type 0} where
  -- `seq` and `created_at` are filled in by the store
  unfoldable pub new : ℕ → String → Option ℤ → Option String → EventType → V → AgentEvent V
  new now task_id turn_id step_id event_type payload = record {
    task_id = task_id;
    seq = pos 0;
    turn_id = turn_id;
    step_id = step_id;
    event_type = event_type;
    schema_version = 1;
    payload = payload;
    created_at = now;
  }

  abbrev check : EventScope → AgentEvent V → Result (Unit {0})
  check task e =
      if is_some e.turn_id
      then err (lifecycle_invariant (turn_id_must_be_null task e.event_type))
      else if is_some e.step_id
      then err (lifecycle_invariant (step_id_must_be_null task e.event_type))
      else ok tt
  check session e =
      if is_some e.turn_id
      then err (lifecycle_invariant (turn_id_must_be_null session e.event_type))
      else if is_some e.step_id
      then err (lifecycle_invariant (step_id_must_be_null session e.event_type))
      else ok tt
  check turn e =
      if is_none e.turn_id
      then err (lifecycle_invariant (turn_id_must_be_set e.event_type))
      else if is_some e.step_id
      then err (lifecycle_invariant (step_id_must_be_null turn e.event_type))
      else ok tt
  check step e =
      if is_none e.step_id
      then err (lifecycle_invariant (step_id_must_be_set e.event_type))
      else ok tt

  -- the callers wrap the message in `LifecycleInvariant`
  unfoldable pub validate_scope : AgentEvent V → Result (Unit {0})
  unfolding scope
  validate_scope e = check (scope e.event_type) e
