-- ===== src/Context/Messages.antt =====
-- The messages that src/context.rs builds, by the role that each of them has.
use mathlib.Core.List.{append_assoc, append-nil}
use lv_fixus.Common.{
  String, Bool, false, Option, none, some, List, [], ◌∷◌, ◌++◌, ◌≡◌, refl, sym, ap, ◌∙◌, arith,
  ◌==◌, string_eq, if◌then◌else◌, unwrap_or, opt_bind, any, not, ◌||◌, any-append,
}
use Prim.Native.String.{◌++◌ as concat}
use lv_fixus.Json.{Json}
use lv_fixus.Models.EventType.{EventType, turn_started, llm_completed, tool_completed}
use lv_fixus.Models.Event.{AgentEvent}
use lv_fixus.Models.Records.{Message}
use lv_fixus.Context.{
  Render, messages_of, push_messages, events_to_messages, user_message, content_message,
  calls_message, output_message,
}

abbrev pub said_by : String → List Message → List String
said_by role [] = []
said_by role (m ∷ ms) = if m.role == role then m.content ∷ said_by role ms else said_by role ms

abbrev pub has_other_role : Message → Bool
has_other_role m = not ((m.role == "user") || (m.role == "assistant") || (m.role == "tool"))

said_by-append :
    (role : String) (xs ys : List Message)
    → said_by role (xs ++ ys) ≡ said_by role xs ++ said_by role ys
said_by-append role [] ys = refl
said_by-append role (m ∷ xs) ys = ground (arith, said_by-append role xs ys)

module _ (j : Json) (r : Render j) where
  abbrev text_at : j.Value → String → Option String
  text_at v key = opt_bind (j.get v key) j.as_str

  abbrev pub listed : Option String → List String
  listed none = []
  listed (some s) = s ∷ []

  abbrev pub unless_empty : Option String → List String
  unless_empty none = []
  unless_empty (some s) = if s == "" then [] else s ∷ []

  abbrev pub calls : Option j.Value → List String
  calls none = []
  calls (some v) = if r.is_filled_array v then concat "[tool_calls] " (r.to_string v) ∷ [] else []

  abbrev pub output : String → Option j.Value → List String
  output tool none = []
  output tool (some v) = concat "[" (concat tool (concat "] " (r.to_string v))) ∷ []

  -- what one event adds to the inputs of the user, the answers of the model and the results of tools
  abbrev pub input_of : EventType → j.Value → List String
  input_of turn_started payload = listed (text_at payload "user_input")
  input_of _ payload = []

  abbrev pub answer_of : EventType → j.Value → List String
  answer_of llm_completed payload =
      unless_empty (text_at payload "content") ++ calls (j.get payload "tool_calls")
  answer_of _ payload = []

  abbrev pub result_of : EventType → j.Value → List String
  result_of tool_completed payload =
      output (unwrap_or "tool" (text_at payload "tool_name")) (j.get payload "output")
  result_of _ payload = []

  abbrev pub each : (EventType → j.Value → List String) → List (AgentEvent j.Value) → List String
  each f [] = []
  each f (e ∷ es) = f e.event_type e.payload ++ each f es

  abbrev flat_messages : List (AgentEvent j.Value) → List Message
  flat_messages [] = []
  flat_messages (e ∷ es) = messages_of j r e.event_type e.payload ++ flat_messages es

  push_messages-eq :
      (messages : List Message) (events : List (AgentEvent j.Value))
      → push_messages j r messages events ≡ messages ++ flat_messages events
  unfolding push_messages
  push_messages-eq messages [] = sym (append-nil messages)
  push_messages-eq messages (e ∷ es) =
      push_messages-eq (messages ++ messages_of j r e.event_type e.payload) es
      ∙ append_assoc messages (messages_of j r e.event_type e.payload) (flat_messages es)

  said_by-each :
      (role : String) (f : EventType → j.Value → List String)
      → ((kind : EventType) (payload : j.Value)
          → said_by role (messages_of j r kind payload) ≡ f kind payload)
      → (events : List (AgentEvent j.Value))
      → said_by role (events_to_messages j r events) ≡ each f events
  unfolding events_to_messages
  said_by-each role f one events = ap (said_by role) (push_messages-eq [] events) ∙ go events
    where
      go : (es : List (AgentEvent j.Value)) → said_by role (flat_messages es) ≡ each f es
      go [] = refl
      go (e ∷ es) =
          rw
            (
              said_by-append role (messages_of j r e.event_type e.payload) (flat_messages es),
              one e.event_type e.payload,
              go es,
            )
            refl

  user_said : (o : Option String) → said_by "user" (user_message j r o) ≡ listed o
  user_said none = refl
  user_said (some s) = refl

  content_said :
      (role : String) (o : Option String)
      → said_by role (content_message j r o) ≡ (if "assistant" == role then unless_empty o else [])
  content_said role none = ground arith
  content_said role (some s) = ground arith

  calls_said :
      (role : String) (o : Option j.Value)
      → said_by role (calls_message j r o) ≡ (if "assistant" == role then calls o else [])
  calls_said role none = ground arith
  calls_said role (some v) = ground arith

  output_said :
      (role tool : String) (o : Option j.Value)
      → said_by role (output_message j r tool o) ≡ (if "tool" == role then output tool o else [])
  output_said role tool none = ground arith
  output_said role tool (some v) = ground arith

  user_one :
      (kind : EventType) (payload : j.Value)
      → said_by "user" (messages_of j r kind payload) ≡ input_of kind payload
  unfolding messages_of
  user_one turn_started payload = user_said (text_at payload "user_input")
  user_one llm_completed payload =
      said_by-append "user" (content_message j r (text_at payload "content")) _
      ∙ rw
          (
            content_said "user" (text_at payload "content"),
            calls_said "user" (j.get payload "tool_calls"),
          )
          refl
  user_one tool_completed payload = output_said "user" _ (j.get payload "output")
  user_one _ payload = refl

  assistant_one :
      (kind : EventType) (payload : j.Value)
      → said_by "assistant" (messages_of j r kind payload) ≡ answer_of kind payload
  unfolding messages_of
  assistant_one turn_started payload = ground arith
  assistant_one llm_completed payload =
      said_by-append "assistant" (content_message j r (text_at payload "content")) _
      ∙ rw
          (
            content_said "assistant" (text_at payload "content"),
            calls_said "assistant" (j.get payload "tool_calls"),
          )
          refl
  assistant_one tool_completed payload = output_said "assistant" _ (j.get payload "output")
  assistant_one _ payload = refl

  tool_one :
      (kind : EventType) (payload : j.Value)
      → said_by "tool" (messages_of j r kind payload) ≡ result_of kind payload
  unfolding messages_of
  tool_one turn_started payload = ground arith
  tool_one llm_completed payload =
      said_by-append "tool" (content_message j r (text_at payload "content")) _
      ∙ rw
          (
            content_said "tool" (text_at payload "content"),
            calls_said "tool" (j.get payload "tool_calls"),
          )
          refl
  tool_one tool_completed payload = output_said "tool" _ (j.get payload "output")
  tool_one _ payload = refl

  user_other : (o : Option String) → any has_other_role (user_message j r o) ≡ false
  user_other none = refl
  user_other (some s) = refl

  content_other : (o : Option String) → any has_other_role (content_message j r o) ≡ false
  content_other none = refl
  content_other (some s) = ground arith

  calls_other : (o : Option j.Value) → any has_other_role (calls_message j r o) ≡ false
  calls_other none = refl
  calls_other (some v) = ground arith

  output_other :
      (tool : String) (o : Option j.Value) → any has_other_role (output_message j r tool o) ≡ false
  output_other tool none = refl
  output_other tool (some v) = refl

  one_other :
      (kind : EventType) (payload : j.Value)
      → any has_other_role (messages_of j r kind payload) ≡ false
  unfolding messages_of
  one_other turn_started payload = user_other (text_at payload "user_input")
  one_other llm_completed payload =
      any-append has_other_role (content_message j r (text_at payload "content")) _
      ∙ rw (content_other (text_at payload "content"), calls_other (j.get payload "tool_calls"))
          refl
  one_other tool_completed payload = output_other _ (j.get payload "output")
  one_other _ payload = refl

  no_other : (es : List (AgentEvent j.Value)) → any has_other_role (flat_messages es) ≡ false
  no_other [] = refl
  no_other (e ∷ es) =
      any-append has_other_role (messages_of j r e.event_type e.payload) (flat_messages es)
      ∙ rw (one_other e.event_type e.payload, no_other es) refl

  -- The messages of a list of events, by their roles: the user has said the inputs of the turns that
  -- started; the assistant what completed LLM calls answered, if it is not empty, each followed by its list
  -- of tool calls if that has an element; and the tools the outputs of completed calls, behind the tool's
  -- name. Within a role they stand in the order of the events, and there are no others.
  pub said_by-events_to_messages :
      (events : List (AgentEvent j.Value))
      → (said_by "user" (events_to_messages j r events) ≡ each input_of events)
        × (said_by "assistant" (events_to_messages j r events) ≡ each answer_of events)
        × (said_by "tool" (events_to_messages j r events) ≡ each result_of events)
        × (any has_other_role (events_to_messages j r events) ≡ false)
  unfolding events_to_messages
  said_by-events_to_messages events = (
    said_by-each "user" input_of user_one events,
    said_by-each "assistant" answer_of assistant_one events,
    said_by-each "tool" result_of tool_one events,
    ap (any has_other_role) (push_messages-eq [] events) ∙ no_other events,
  )
