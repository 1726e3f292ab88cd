-- ===== src/Registry.antt =====
-- src/task_registry.rs: the calls that wait for the end of a task's turn. A oneshot channel is a number;
-- `sent` lists what was sent on channels, the latest first.
pub mod Answers
pub mod Waiters
use Prim.Native.String.{◌++◌ as concat}
use lv_fixus.Common.{String, Option, none, some, ℕ, List, [], ◌∷◌, ◌⊎◌, inl, inr, string_eq}
use lv_fixus.Common.Int.{ℤ}
use lv_fixus.Common.Map.{Map, get, insert, remove}

pub data TurnOutcome : Type 0 where
  -- final_output, turn_id, event_count
  completed : String → ℤ → ℤ → TurnOutcome
  -- turn_id, error_type, error_message
  failed : ℤ → String → String → TurnOutcome
  timeout : ℤ → TurnOutcome

pub record PendingTurn : Type 0 where
  pub task_id : String
  pub turn_id : ℤ
  pub redo_group : String
  pub result_tx : ℕ

pub record TaskRegistry : Type 0 where
  pub active_turns : Map String PendingTurn
  pub sent : List (ℕ × TurnOutcome)

unfoldable pub new : TaskRegistry
new = record { active_turns = []; sent = [] }

abbrev pub replaced : PendingTurn → ℕ × TurnOutcome
replaced old = (old.result_tx, failed old.turn_id "replaced" "Turn replaced by new request")

abbrev pub notify_old : Option PendingTurn → List (ℕ × TurnOutcome) → List (ℕ × TurnOutcome)
notify_old none sent = sent
notify_old (some old) sent = replaced old ∷ sent

unfoldable pub register_pending_turn : TaskRegistry → String → PendingTurn → TaskRegistry
register_pending_turn r task_id turn = record {
  active_turns = insert task_id turn r.active_turns;
  sent = notify_old (get task_id r.active_turns) r.sent;
}

unfoldable pub take_pending_turn : TaskRegistry → String → TaskRegistry × Option PendingTurn
take_pending_turn r task_id =
    (record r { active_turns = remove task_id r.active_turns }, get task_id r.active_turns)

abbrev pub complete_with :
    String → TurnOutcome → TaskRegistry × Option PendingTurn → TaskRegistry × (String ⊎ Unit {0})
complete_with task_id outcome (r, none) = (r, inl (concat "No pending turn for session " task_id))
complete_with task_id outcome (r, some t) =
    (record r { sent = (t.result_tx, outcome) ∷ r.sent }, inr tt)

-- a receiver that is gone is not an error
unfoldable pub complete_pending_turn :
    TaskRegistry → String → TurnOutcome → TaskRegistry × (String ⊎ Unit {0})
complete_pending_turn r task_id outcome =
    complete_with task_id outcome (take_pending_turn r task_id)

-- the calls that the orchestrator makes
pub data Call : Type 0 where
  register : String → PendingTurn → Call
  complete : String → TurnOutcome → Call

unfoldable pub step : TaskRegistry → Call → TaskRegistry
step r (register task_id turn) = register_pending_turn r task_id turn
step r (complete task_id outcome) = (complete_pending_turn r task_id outcome).0

unfoldable pub run : TaskRegistry → List Call → TaskRegistry
run r [] = r
run r (c ∷ cs) = run (step r c) cs
