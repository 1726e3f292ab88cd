-- ===== src/Tests/Fixlet.antt =====
-- The theorems on src/bin/fixlet/router.rs at concrete inputs, and a run of the counter of
-- src/bin/fixlet/idempotency.rs.
use lv_fixus.Common.{none, some, List, [], ◌∷◌, ◌≡◌, refl, inr}
use lv_fixus.Common.Int.{pos, as_i32, add_i64, ◌+ℤ◌}
use lv_fixus.Fixlet.{
  parse_execute_turn_payload, new_counter, next, reset, llm_completed_payload, llm_invoked_payload,
  llm_failed_payload,
}
use lv_fixus.Fixlet.Wire.{parse-build, events_read}
use lv_fixus.Models.Records.{Message}
use lv_fixus.Orchestrator.Payload.{build_turn_begin_payload}
use lv_fixus.Orchestrator.Steps.{
  handle_record, handle_llm_completed, handle_llm_invoked, handle_llm_failed,
}
use lv_fixus.Tests.Orchestrator.{env, texts, readings, fresh}
use lv_fixus.Tests.Values.{json, build, null}

abbrev one_message : List Message
one_message = record { role = "user"; content = "hello" } ∷ []

counts : (next (next new_counter).0).1 ≡ pos 2
unfolding next add_i64 ◌+ℤ◌
counts = refl

starts_again : (next (reset (next new_counter).0)).1 ≡ pos 1
unfolding next reset add_i64 ◌+ℤ◌
starts_again = refl

parse-build_example :
    parse_execute_turn_payload json
      (λ v. none)
      (build_turn_begin_payload json build texts "t"
        (pos 5)
        "hello"
        "so far"
        one_message
        "group"
        (pos 2)
        none)
    ≡ inr (record {
      task_id = "t";
      turn_id = pos 5;
      user_input = "hello";
      redo_group = "group";
      redo_count = pos 2;
      summary = "so far";
      messages = [];
      effective_policy = some null;
    })
unfolding as_i32
parse-build_example =
    parse-build json build texts (λ v. none) "t" (pos 5) "hello" "so far" one_message "group"
      (pos 2) none refl refl

events_read_example :
    (handle_record env readings
        (record {
          event_type = "llm_completed";
          payload = llm_completed_payload json build "t" (pos 5) "s" "model" none (pos 1);
        })
        fresh
      ≡ (handle_llm_completed env "t" (pos 5) "s" "model" (pos 0) (pos 0) (pos 0) (pos 1) fresh).0)
    × (handle_record env readings
          (record {
            event_type = "llm_invoked";
            payload = llm_invoked_payload json build "t" (pos 5) "s" "model" one_message (pos 1);
          })
          fresh
        ≡ (handle_llm_invoked env "t" (some (pos 5)) "s" "model" [] (pos 1) fresh).0)
    × (handle_record env readings
          (record {
            event_type = "llm_failed";
            payload = llm_failed_payload json build "t" (pos 5) "s" "timeout" "late" (pos 1);
          })
          fresh
        ≡ (handle_llm_failed env "t" (some (pos 5)) "s" "timeout" "late" (pos 1) fresh).0)
events_read_example =
    events_read env readings "t" "s" "model" "timeout" "late" none (pos 5) (pos 1) one_message fresh
      refl refl
