-- ===== src/Tests/Orchestrator.antt =====
-- The theorems on src/context.rs and src/orchestrator.rs at concrete inputs, over the store that counts its
-- writes and knows one type of task.
use lv_fixus.Common.{any, false, none, some, ℕ, ◌+◌, ◌≤◌, List, [], ◌∷◌, ◌≡◌, refl, ◌⊎◌, inr}
use lv_fixus.Common.Int.{pos, add_i32, ◌+ℤ◌}
use lv_fixus.Common.Map.{get}
use lv_fixus.Context.{Render, events_to_messages}
use lv_fixus.Context.Messages.{said_by, has_other_role, said_by-events_to_messages}
use lv_fixus.Dispatcher.{in_flight, pending_count}
use lv_fixus.Error.{ok}
use lv_fixus.Models.Failure.{agent_spawn_failed, classify_failure, is_retryable}
use lv_fixus.Models.Records.{Task}
use lv_fixus.Models.TaskState.{executing}
use lv_fixus.Retry
use lv_fixus.Retry.{decide}
use lv_fixus.Orchestrator.{Env, Texts, Orchestrator, new}
use lv_fixus.Orchestrator.Ends.{handle_turn_execution_error, handle_turn_execution_done}
use lv_fixus.Orchestrator.Steps.{Readings}
use lv_fixus.Orchestrator.Turns.{dispatch_pending}
use lv_fixus.Orchestrator.Wait.{Runtime, launch_turn, elapsed, compute_extension_deadlines}
use lv_fixus.Orchestrator.Run.{Operation, record_arrives, call_execute, watchdog_looks, perform_all}
use lv_fixus.Orchestrator.Safe.{perform_all-ends}
use lv_fixus.Orchestrator.Watchdog.{reclaim_stale_turns}
use lv_fixus.Orchestrator.Drain.{dispatch_pending-drained}
use lv_fixus.Orchestrator.Drives.{stays}
use lv_fixus.Orchestrator.Slots.{error-KeepsSlot}
use lv_fixus.Tests.Values.{JsonValue, null, num, str, obj, end, member, json, build}
use lv_fixus.Tests.Service.{counting, started}

abbrev render : Render json
render = record { is_filled_array = λ v. false; to_string = λ v. "value" }

abbrev pub texts : Texts JsonValue
texts = record {
  usize = λ n. "n";
  i64 = λ i. "i";
  error = λ e. "error";
  policy = λ p. null;
  parse_i64 = λ s. some (pos 1);
  rsplit_colon = λ s. some (s, "1");
}

abbrev known : Task JsonValue
known = record {
  task_id = "t";
  tenant_id = "tenant";
  user_id = "user";
  task_type = "code";
  state = executing;
  provenance = record {
    source_channel = "web";
    source_session_id = none;
    source_user_id = none;
    source_tenant_id = none;
    source_message_id = none;
    created_at = 0;
    created_by = "user";
  };
  body = none;
  created_at = 0;
  metadata = none;
  priority = pos 1;
  effective_policy = none;
}

abbrev pub env : Env
env = record {
  j = json;
  b = build;
  render = render;
  S = ℕ;
  store = record (counting executing) {
    get_task = λ t n. (n, ok (some known));
    get_incomplete_turns = λ t n. (n, ok []);
  };
  texts = texts;
  retry_policy = Retry.default;
  fresh_group = "group";
  now = 5;
}

-- no other task moves, and no answer comes
abbrev silent : Runtime (Orchestrator ℕ)
silent = record { since_start = λ o. 0; wait = λ channel remaining o. (o, elapsed) }

abbrev pub readings : Readings JsonValue
readings = record { as_bool = λ v. none; parse_messages = λ v. none }

abbrev half_more : ℕ → ℕ
half_more n = n + n

abbrev ops : List (Operation JsonValue)
ops =
    call_execute "t" "hello" none
    ∷ record_arrives (record {
      event_type = "turn_execution_done";
      payload = obj (member "task_id" (str "t") (member "turn_id" (num (pos 5)) end));
    })
    ∷ watchdog_looks 3
    ∷ []

said_by-events_to_messages_example :
    (said_by "user" (events_to_messages json render (started ∷ started ∷ []))
      ≡ "hello" ∷ "hello" ∷ [])
    × (said_by "assistant" (events_to_messages json render (started ∷ started ∷ [])) ≡ [])
    × (said_by "tool" (events_to_messages json render (started ∷ started ∷ [])) ≡ [])
    × (any has_other_role (events_to_messages json render (started ∷ started ∷ [])) ≡ false)
said_by-events_to_messages_example = said_by-events_to_messages json render (started ∷ started ∷ [])

perform_all-ends_example :
    (o : Orchestrator ℕ) × (perform_all env silent
        (compute_extension_deadlines half_more 600 3)
        readings
        ops
        (new 7)
      ≡ some o)
perform_all-ends_example =
    perform_all-ends env silent half_more 600 3 readings (λ c d o. stays refl refl refl) ops (new 7)

abbrev launched : Orchestrator ℕ
launched = (launch_turn env "t" (pos 5) "hello" "group" (new 7)).0

abbrev looked_at : Orchestrator ℕ
looked_at = (reclaim_stale_turns env 3 launched).0

abbrev reported : Orchestrator ℕ
reported = (handle_turn_execution_done env "t" (pos 5) "done" looked_at).0

abbrev pub fresh : Orchestrator ℕ
fresh = new 7

dispatch_pending-drained_example :
    ((dispatch_pending env "code" fresh).dispatcher.max_concurrent
      ≤ in_flight (dispatch_pending env "code" fresh).dispatcher "code")
    ⊎ (pending_count (dispatch_pending env "code" fresh).dispatcher "code" ≡ 0)
dispatch_pending-drained_example = dispatch_pending-drained env "code" fresh

error-KeepsSlot_example :
    (handle_turn_execution_error env "t" (pos 1) "agent_spawn_failed" "no agent" fresh).0.dispatcher
    ≡ fresh.dispatcher
unfolding decide classify_failure is_retryable Retry.default get add_i32 ◌+ℤ◌
error-KeepsSlot_example =
    error-KeepsSlot env "t" (pos 1) "agent_spawn_failed" "no agent" (started ∷ []) 7 fresh refl
      (inr (agent_spawn_failed, pos 1, refl))
