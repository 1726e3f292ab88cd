-- ===== src/Models/TaskState.antt =====
-- `TaskState` of src/models.rs: the eight states of a task and the legal transitions.
pub mod Lifecycle
use lv_fixus.Common.{String, Bool, true, false, Option, List, [], ◌∷◌, if◌then◌else◌}
use lv_fixus.Common.Literal.{match_str}

pub data TaskState : Type 0 where
  created ready claimed executing blocked succeeded failed canceled : TaskState

abbrev pub state_arms : List (String × TaskState)
state_arms =
    ("created", created)
    ∷ ("ready", ready)
    ∷ ("claimed", claimed)
    ∷ ("executing", executing)
    ∷ ("blocked", blocked)
    ∷ ("succeeded", succeeded)
    ∷ ("failed", failed)
    ∷ ("canceled", canceled)
    ∷ []

unfoldable pub from_str : String → Option TaskState
from_str s = match_str state_arms s

unfoldable pub as_str : TaskState → String
as_str created = "created"
as_str ready = "ready"
as_str claimed = "claimed"
as_str executing = "executing"
as_str blocked = "blocked"
as_str succeeded = "succeeded"
as_str failed = "failed"
as_str canceled = "canceled"

unfoldable pub is_terminal : TaskState → Bool
is_terminal succeeded = true
is_terminal failed = true
is_terminal canceled = true
is_terminal _ = false

-- the `matches!` of `can_transition`
abbrev legal_pair : TaskState → TaskState → Bool
legal_pair created ready = true
legal_pair ready claimed = true
legal_pair ready canceled = true
legal_pair claimed executing = true
legal_pair claimed canceled = true
legal_pair executing blocked = true
legal_pair executing succeeded = true
legal_pair executing failed = true
legal_pair executing canceled = true
legal_pair blocked ready = true
legal_pair blocked canceled = true
legal_pair created canceled = true
legal_pair _ _ = false

unfoldable pub can_transition : TaskState → TaskState → Bool
unfolding is_terminal
can_transition from to = if is_terminal from then false else legal_pair from to
