-- ===== src/Fixlet/Wire.antt =====
-- The payloads between src/orchestrator.rs and src/bin/fixlet/router.rs, written by one and read by the other.
use lv_fixus.Common.{
  String, false, Option, none, some, List, [], ◌≡◌, refl, inr, map, unwrap_or, if◌then◌else◌,
  Bool-cases, inl, ◌==◌, string_eq,
}
use lv_fixus.Common.Int.{ℤ, pos, as_i32, int_eq}
use lv_fixus.Json.{Json, Build}
use lv_fixus.Models.Records.{Message}
use lv_fixus.Policy.{EffectivePolicy}
use lv_fixus.Fixlet.{
  parse_execute_turn_payload, llm_completed_payload, llm_invoked_payload, llm_failed_payload,
}
use lv_fixus.Orchestrator.{Texts, Env, Orchestrator}
use lv_fixus.Orchestrator.Steps.{
  Readings, text, number, handle_record, handle_llm_completed, handle_llm_invoked,
  handle_llm_failed,
}
use lv_fixus.Orchestrator.Payload.{build_turn_begin_payload, message_value}

-- What the fixlet reads from the payload that the orchestrator publishes for a turn is the turn: its task, its
-- number, the input, the redo group, the summary, the messages as they are decoded, the policy, and the redo
-- count as an `i32`, if the task id is not empty and the number not 0.
pub parse-build :
    (j : Json) (b : Build j) (texts : Texts j.Value)
    (parse_messages : j.Value → Option (List Message)) (task_id : String) (turn_id : ℤ)
    (input summary : String) (messages : List Message) (group : String) (count : ℤ)
    (policy : Option EffectivePolicy)
    → (task_id == "") ≡ false
    → (turn_id == pos 0) ≡ false
    → parse_execute_turn_payload j parse_messages (
        build_turn_begin_payload j b texts task_id turn_id input summary messages group count
          policy)
      ≡ inr (record {
        task_id = task_id;
        turn_id = turn_id;
        user_input = input;
        redo_group = group;
        redo_count = as_i32 count;
        summary = summary;
        messages = unwrap_or [] (parse_messages (b.array (map (message_value j b texts) messages)));
        effective_policy = some (elim policy [ none ↦ j.null | some p ↦ texts.policy p ]);
      })
unfolding parse_execute_turn_payload build_turn_begin_payload
parse-build j b texts parse_messages task_id turn_id input summary messages group count policy h k =
    simp (b.get-object, b.as_str-string, b.as_i64-int, h, k)

read_text :
    (E : Env) (payload : E.j.Value) (key default : String)
    → text E payload key default
      ≡ unwrap_or default (E.j.as_str (unwrap_or E.j.null (E.j.get payload key)))
read_text E payload key default = refl

read_number :
    (E : Env) (payload : E.j.Value) (key : String)
    → number E payload key
      ≡ unwrap_or (pos 0) (E.j.as_i64 (unwrap_or E.j.null (E.j.get payload key)))
read_number E payload key = refl

-- what is reported where the usage is not known
abbrev pub tokens : Option (ℤ × (ℤ × ℤ)) → ℤ × (ℤ × ℤ)
tokens none = (pos 0, (pos 0, pos 0))
tokens (some usage) = usage

counted_read :
    (E : Env) (r : Readings E.j.Value) (task_id step_id model : String) (x y z turn_id seq : ℤ)
    (o : Orchestrator E.S)
    → (task_id == "") ≡ false
    → (step_id == "") ≡ false
    → handle_record E r
        (record {
          event_type = "llm_completed";
          payload =
              llm_completed_payload E.j E.b task_id turn_id step_id model (some (x, (y, z))) seq;
        })
        o
      ≡ (if turn_id == pos 0
          then o
          else (handle_llm_completed E task_id turn_id step_id model x y z seq o).0)
unfolding handle_record llm_completed_payload
counted_read E r task_id step_id model x y z turn_id seq o h k =
    elim (Bool-cases (turn_id == pos 0)) [
      | inl e ↦
          simp
            (read_text E, read_number E, E.b.get-object, E.b.as_str-string, E.b.as_i64-int, h, k, e)
      | inr e ↦
          simp
            (read_text E, read_number E, E.b.get-object, E.b.as_str-string, E.b.as_i64-int, h, k, e)
    ]

completed_read :
    (E : Env) (r : Readings E.j.Value) (task_id step_id model : String)
    (usage : Option (ℤ × (ℤ × ℤ))) (turn_id seq : ℤ) (o : Orchestrator E.S)
    → (task_id == "") ≡ false
    → (step_id == "") ≡ false
    → handle_record E r
        (record {
          event_type = "llm_completed";
          payload = llm_completed_payload E.j E.b task_id turn_id step_id model usage seq;
        })
        o
      ≡ (if turn_id == pos 0
          then o
          else (handle_llm_completed E task_id turn_id step_id model
              (tokens usage).0
              (tokens usage).1.0
              (tokens usage).1.1
              seq
              o).0)
unfolding llm_completed_payload
completed_read E r task_id step_id model none turn_id seq o h k =
    counted_read E r task_id step_id model (pos 0) (pos 0) (pos 0) turn_id seq o h k
completed_read E r task_id step_id model (some (x, (y, z))) turn_id seq o h k =
    counted_read E r task_id step_id model x y z turn_id seq o h k

-- Each step event that the fixlet writes about an LLM call is handled with what it was written with: the task,
-- the turn, the step, the model or the error, the local sequence number, the messages as they are decoded,
-- and the token counts, which are 0 where the usage is not known. Neither the task id nor the step id is
-- empty. A completed call of a turn with the number 0 changes nothing; the other two events are handled for
-- every turn.
pub events_read :
    (E : Env) (r : Readings E.j.Value) (task_id step_id model error_type message : String)
    (usage : Option (ℤ × (ℤ × ℤ))) (turn_id seq : ℤ) (messages : List Message)
    (o : Orchestrator E.S)
    → (task_id == "") ≡ false
    → (step_id == "") ≡ false
    → (handle_record E r
          (record {
            event_type = "llm_completed";
            payload = llm_completed_payload E.j E.b task_id turn_id step_id model usage seq;
          })
          o
        ≡ (if turn_id == pos 0
            then o
            else (handle_llm_completed E task_id turn_id step_id model
                (tokens usage).0
                (tokens usage).1.0
                (tokens usage).1.1
                seq
                o).0))
      × (handle_record E r
            (record {
              event_type = "llm_invoked";
              payload = llm_invoked_payload E.j E.b task_id turn_id step_id model messages seq;
            })
            o
          ≡ (handle_llm_invoked E task_id
              (some turn_id)
              step_id
              model
              (unwrap_or []
                (r.parse_messages (E.b.array (map (message_value E.j E.b E.texts) messages))))
              seq
              o).0)
      × (handle_record E r
            (record {
              event_type = "llm_failed";
              payload = llm_failed_payload E.j E.b task_id turn_id step_id error_type message seq;
            })
            o
          ≡ (handle_llm_failed E task_id (some turn_id) step_id error_type message seq o).0)
unfolding handle_record llm_invoked_payload llm_failed_payload
events_read E r task_id step_id model error_type message usage turn_id seq messages o h k = (
  completed_read E r task_id step_id model usage turn_id seq o h k,
  simp (read_text E, E.b.get-object, E.b.as_str-string, E.b.as_i64-int, h, k),
  simp (read_text E, E.b.get-object, E.b.as_str-string, E.b.as_i64-int, h, k),
)
