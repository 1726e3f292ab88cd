-- ===== src/Models/Records.antt =====
-- Records of src/models.rs that the projection and the recovery read and return. A `DateTime<Utc>`
-- is a number of nanoseconds.
use lv_fixus.Common.{String, Option, ℕ}
use lv_fixus.Common.Int.{ℤ}
use lv_fixus.Models.TaskState.{TaskState}
use lv_fixus.Policy.{EffectivePolicy}

pub record Provenance : Type 0 where
  pub source_channel : String
  pub source_session_id : Option String
  pub source_user_id : Option String
  pub source_tenant_id : Option String
  pub source_message_id : Option String
  pub created_at : ℕ
  pub created_by : String

pub record IncompleteTurn : Type 0 where
  pub turn_id : ℤ
  pub redo_group : String
  pub redo_count : ℤ  -- i32
  pub turn_started_at : ℕ

pub record IncompleteStep (V : Type 0) : Type 0 where
  pub seq : ℤ
  pub turn_id : ℤ
  pub step_id : String
  pub start_event_type : String
  pub payload : V
  pub started_at : ℕ

pub record Task (V : Type 0) : Type 0 where
  pub task_id : String
  pub tenant_id : String
  pub user_id : String
  pub task_type : String
  pub state : TaskState
  pub provenance : Provenance
  pub body : Option V
  pub created_at : ℕ
  pub metadata : Option V
  pub priority : ℤ  -- i32
  pub effective_policy : Option EffectivePolicy

pub record Message : Type 0 where
  pub role : String
  pub content : String
