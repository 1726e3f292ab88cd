-- ===== src/Tests/Service.antt =====
-- The theorems on src/service.rs and src/recovery.rs at concrete inputs, over a store that counts its
-- writes.
use lv_fixus.Common.{true, false, none, some, List, [], ◌∷◌, ◌≡◌, refl, ℕ, ◌+◌}
use lv_fixus.Common.Int.{pos, add_i64, add_i32, ◌+ℤ◌}
use lv_fixus.Error.{ok, err, invalid_task_state_transition}
use lv_fixus.Models.EventType.{
  turn_started, task_succeeded, llm_invoked, llm_completed, tool_invoked, summary_marker,
}
use lv_fixus.Models.TaskState.{
  TaskState, ready, claimed, executing, blocked, succeeded, failed, canceled, can_transition,
  is_terminal,
}
use lv_fixus.Models.Event
use lv_fixus.Models.Event.{AgentEvent}
use lv_fixus.Models.Payload.{validate_payload_required_fields}
use lv_fixus.Models.Records.{IncompleteTurn, IncompleteStep}
use lv_fixus.Store.{EventStore}
use lv_fixus.Service.{
  transition_task, mark_task_ready, claim_task, block_task, succeed_task, fail_task, cancel_task,
  start_turn, await_task,
}
use lv_fixus.Service.Steps.{llm_invoked_payload, llm_completed_payload, tool_invoked_payload}
use lv_fixus.Service.Summary.{summary_payload}
use lv_fixus.Service.Transitions.{Moved, transition_task-ok}
use lv_fixus.Service.Refused.{terminal_refused}
use lv_fixus.Service.Turns.{Started, start_event, start_turn-ok}
use lv_fixus.Service.Checked.{payloads_pass}
use lv_fixus.Recovery.{
  RedoContext, requires_human_intervention, decide_recovery_from_steps, classify_tool, recover_task,
  recover_turns, decide_turn_recovery, build_redo_context, build_redo_context_from_events,
}
use lv_fixus.Recovery.Decide.{decide_recovery-eq}
use lv_fixus.Recovery.Redo.{Recovered, recover_task-ok}
use lv_fixus.Tests.Values.{JsonValue, null, str, obj, end, member, json, build}

abbrev turn_one : IncompleteTurn
turn_one = record { turn_id = pos 1; redo_group = "g"; redo_count = pos 0; turn_started_at = 0 }

abbrev pub started : AgentEvent JsonValue
started = record {
  task_id = "t";
  seq = pos 3;
  turn_id = some (pos 1);
  step_id = none;
  event_type = turn_started;
  schema_version = 1;
  payload = obj (member "user_input" (str "hello") end);
  created_at = 0;
}

abbrev pub counting : TaskState → EventStore JsonValue ℕ
counting state = record {
  task_exists = λ t n. (n, ok true);
  is_task_ended = λ t n. (n, ok false);
  get_task_state = λ t n. (n, ok (some state));
  get_max_turn_id = λ t n. (n, ok (pos 4));
  write_event = λ e n. (n + 1, ok (pos n));
  get_turn_events = λ t turn n. (n, ok (started ∷ []));
  get_latest_summary = λ t n. (n, ok none);
  get_incomplete_turns = λ t n. (n, ok (turn_one ∷ []));
  get_incomplete_steps = λ t n. (n, ok []);
  count_turns_after_seq = λ t after n. (n, ok (pos 0));
  count_events_after_seq = λ t after n. (n, ok (pos 0));
  get_llm_payloads_after_seq = λ t after n. (n, ok []);
  get_task = λ t n. (n, ok none);
  get_max_seq = λ t n. (n, ok (pos 0));
  get_event = λ t seq n. (n, ok none);
  get_events_after_seq = λ t after n. (n, ok []);
  get_recent_turn_ids = λ t limit n. (n, ok []);
  publish_turn_begin = λ t kind payload n. (n, ok tt);
  invalidate_projection = λ t n. n;
}

abbrev success : AgentEvent JsonValue
success = record (Event.new 9 "t" none none task_succeeded null) { seq = pos 7 }

transition_task-ok_example :
    Moved (counting executing) 9 "t" succeeded task_succeeded null 7 8 success
transition_task-ok_example =
    transition_task-ok (counting executing) 9 "t" succeeded task_succeeded null 7 8 success
      (unfold transition_task can_transition in refl)

terminal_refused_example :
    (mark_task_ready json build (counting failed) 9 "t" 7
      ≡ (7, err (invalid_task_state_transition "t" failed ready)))
    × (claim_task json build (counting failed) 9 "t" "x" 7
        ≡ (7, err (invalid_task_state_transition "t" failed claimed)))
    × (block_task json build (counting failed) 9 "t" "x" 7
        ≡ (7, err (invalid_task_state_transition "t" failed blocked)))
    × (succeed_task json build (counting failed) 9 "t" "x" 7
        ≡ (7, err (invalid_task_state_transition "t" failed succeeded)))
    × (fail_task json build (counting failed) 9 "t" "x" none 7
        ≡ (7, err (invalid_task_state_transition "t" failed failed)))
    × (cancel_task json build (counting failed) 9 "t" "x" 7
        ≡ (7, err (invalid_task_state_transition "t" failed canceled)))
terminal_refused_example =
    terminal_refused json build (counting failed) 9 "t" "x" none failed 7 7 refl
      (unfold is_terminal in refl)

start_turn-ok_example : Started json build (counting ready) 9 "t" "hello" none "fresh" 7 8 (
  pos 5,
  (
    "fresh",
    record (start_event json build (counting ready) 9 "t" "hello" none "fresh" (pos 4)) {
      seq = pos 7;
    },
  ),
)
start_turn-ok_example =
    start_turn-ok json build (counting ready) 9 "t" "hello" none "fresh" 7 8
      (
        pos 5,
        (
          "fresh",
          record (start_event json build (counting ready) 9 "t" "hello" none "fresh" (pos 4)) {
            seq = pos 7;
          },
        ),
      )
      (unfold start_turn await_task add_i64 ◌+ℤ◌ in refl)

payloads_pass_example :
    (validate_payload_required_fields json llm_invoked
        (llm_invoked_payload json build "m" (str "hi") none none (pos 1))
      ≡ ok tt)
    × (validate_payload_required_fields json llm_completed
          (llm_completed_payload json build "m" none none none none (pos 1))
        ≡ ok tt)
    × (validate_payload_required_fields json tool_invoked
          (tool_invoked_payload json build "read_file" "c" "k" null none (pos 1) none none)
        ≡ ok tt)
    × (validate_payload_required_fields json summary_marker
          (summary_payload json build (pos 1) (pos 2) "text" (pos 3))
        ≡ ok tt)
payloads_pass_example =
    payloads_pass json build "m" "read_file" "c" "k" "text" (str "hi") null none none none none none
      none none (pos 1) (pos 2) (pos 3) none refl

abbrev mail : IncompleteStep JsonValue
mail = record {
  seq = pos 4;
  turn_id = pos 1;
  step_id = "s";
  start_event_type = "tool_invoked";
  payload = obj (member "tool_name" (str "send_email") end);
  started_at = 0;
}

abbrev lookup : IncompleteStep JsonValue
lookup = record mail { step_id = "r"; payload = obj (member "tool_name" (str "search") end) }

decide_recovery-eq_example :
    decide_recovery_from_steps json turn_one (lookup ∷ mail ∷ [])
    ≡ requires_human_intervention (pos 1) "g" (mail ∷ [])
unfolding classify_tool
decide_recovery-eq_example = decide_recovery-eq json turn_one (lookup ∷ mail ∷ [])

abbrev redone : RedoContext
redone = record {
  task_id = "t";
  turn_id = pos 1;
  redo_group = "g";
  redo_count = add_i32 (pos 0) (pos 1);
  user_input = "hello";
}

recover_task-ok_example :
    (read : ℕ) × (turns : List IncompleteTurn) × ((counting executing).get_incomplete_turns "t" 7
      ≡ (read, ok turns))
    × Recovered json (counting executing) build 9 (λ n. "n") "t" turns read 7 (redone ∷ [])
recover_task-ok_example =
    recover_task-ok json (counting executing) build 9 (λ n. "n") "t" 7 7 (redone ∷ [])
      (unfold recover_task recover_turns decide_turn_recovery build_redo_context
          build_redo_context_from_events decide_recovery_from_steps in
        refl)
