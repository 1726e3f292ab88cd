-- ===== src/Context.antt =====
-- src/context.rs: the messages and the summary that an LLM is given, from the events of a task.
pub mod Messages
use Prim.Native.String.{◌++◌ as concat}
use lv_fixus.Common.{
  String, Bool, Option, none, some, List, [], ◌∷◌, ◌++◌, if◌then◌else◌, unwrap_or, opt_bind, ◌==◌,
  reverse, string_eq,
}
use lv_fixus.Common.Int.{ℤ, pos, add_i64}
use lv_fixus.Json.{Json}
use lv_fixus.Models.EventType.{EventType, turn_started, llm_completed, tool_completed}
use lv_fixus.Models.Event.{AgentEvent}
use lv_fixus.Models.Records.{Message}
use lv_fixus.Store.{EventStore, Action, return, ◌>>=◌}

-- What src/context.rs reads of a value besides its members: whether it is an array with an element, and
-- its text, empty if it has none (`serde_json::to_string(…).unwrap_or_default()`).
pub record Render (j : Json) : Type 0 where
  pub is_filled_array : j.Value → Bool
  pub to_string : j.Value → String

pub record LlmContext : Type 0 where
  pub summary : String
  pub summarized_up_to_seq : ℤ
  pub summarized_up_to_turn_id : Option ℤ
  pub messages : List Message
  pub incremental_start_seq : ℤ

pub record FullReplay (V : Type 0) : Type 0 where
  pub events : List (AgentEvent V)
  pub messages : List Message

abbrev pub message : String → String → Message
message role content = record { role = role; content = content }

module _ (j : Json) (r : Render j) where
  -- `payload.get(key).and_then(as_str)`, and the same for `as_i64`
  abbrev pub str_at : j.Value → String → Option String
  str_at v key = opt_bind (j.get v key) j.as_str

  abbrev pub i64_at : j.Value → String → Option ℤ
  i64_at v key = opt_bind (j.get v key) j.as_i64

  abbrev pub user_message : Option String → List Message
  user_message none = []
  user_message (some input) = message "user" input ∷ []

  abbrev pub content_message : Option String → List Message
  content_message none = []
  content_message (some content) = if content == "" then [] else message "assistant" content ∷ []

  abbrev pub calls_message : Option j.Value → List Message
  calls_message none = []
  calls_message (some calls) =
      if r.is_filled_array calls
      then message "assistant" (concat "[tool_calls] " (r.to_string calls)) ∷ []
      else []

  abbrev pub output_message : String → Option j.Value → List Message
  output_message tool none = []
  output_message tool (some output) =
      message "tool" (concat "[" (concat tool (concat "] " (r.to_string output)))) ∷ []

  -- what one event pushes
  unfoldable pub messages_of : EventType → j.Value → List Message
  messages_of turn_started payload = user_message (str_at payload "user_input")
  messages_of llm_completed payload =
      content_message (str_at payload "content") ++ calls_message (j.get payload "tool_calls")
  messages_of tool_completed payload =
      output_message (unwrap_or "tool" (str_at payload "tool_name")) (j.get payload "output")
  messages_of _ payload = []

  -- the loop; `messages` is the vector that it pushes to
  unfoldable pub push_messages : List Message → List (AgentEvent j.Value) → List Message
  push_messages messages [] = messages
  push_messages messages (e ∷ es) =
      push_messages (messages ++ messages_of e.event_type e.payload) es

  unfoldable pub events_to_messages : List (AgentEvent j.Value) → List Message
  events_to_messages events = push_messages [] events

  abbrev pub summary_of : Option (AgentEvent j.Value) → String × (ℤ × Option ℤ)
  summary_of none = ("", (pos 0, none))
  summary_of (some e) = (
    unwrap_or "" (str_at e.payload "summary"),
    (
      unwrap_or (pos 0) (i64_at e.payload "summarized_up_to_seq"),
      i64_at e.payload "summarized_up_to_turn_id",
    ),
  )

  abbrev pub context_of : String × (ℤ × Option ℤ) → List (AgentEvent j.Value) → LlmContext
  context_of (text, (seq, turn_id)) events = record {
    summary = text;
    summarized_up_to_seq = seq;
    summarized_up_to_turn_id = turn_id;
    messages = events_to_messages events;
    incremental_start_seq = add_i64 seq (pos 1);
  }

  module _ {S : Type 0} (store : EventStore j.Value S) where
    unfoldable pub build_llm_context : String → Action S LlmContext
    build_llm_context task_id = do
      latest ← store.get_latest_summary task_id
      events ← store.get_events_after_seq task_id (summary_of latest).1.0
      return (context_of (summary_of latest) events)

    unfoldable pub full_replay : String → Action S (FullReplay j.Value)
    full_replay task_id = do
      events ← store.get_events_after_seq task_id (pos 0)
      return record { events = events; messages = events_to_messages events }

    unfoldable pub build_turn_context : String → ℤ → Action S (List Message)
    build_turn_context task_id turn_id = do
      events ← store.get_turn_events task_id turn_id
      return (events_to_messages events)

    -- the loop over the turns; `all` is the vector that it extends
    unfoldable pub extend_turns : String → List Message → List ℤ → Action S (List Message)
    extend_turns task_id all [] = return all
    extend_turns task_id all (t ∷ ts) = do
      events ← store.get_turn_events task_id t
      extend_turns task_id (all ++ events_to_messages events) ts

    unfoldable pub build_recent_turns_context : String → ℤ → Action S (List Message)
    build_recent_turns_context task_id recent_turns = do
      turn_ids ← store.get_recent_turn_ids task_id recent_turns
      extend_turns task_id [] (reverse turn_ids)

-- `display` prints an `i64`
unfoldable pub build_system_prompt : (ℤ → String) → LlmContext → String
build_system_prompt display c =
    if c.summary == ""
    then ""
    else concat "Previous conversation summary (up to turn " (
        concat (elim c.summarized_up_to_turn_id [ none ↦ "?" | some id ↦ display id ])
          (concat "):\n" c.summary))
