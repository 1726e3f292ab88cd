-- ===== src/Service/Checked.antt =====
-- The events that the service writes against the checks that the write path makes first.
use mathlib.Core.Path.{subst}
use lv_fixus.Common.{
  String, false, Option, none, some, ℕ, List, ◌≡◌, refl, arith, ◌++◌, ◌==◌, string_eq, ◌∙◌, sym,
}
use lv_fixus.Common.Int.{ℤ}
use lv_fixus.Common.Literal.{match_str}
use lv_fixus.Json.{Json, Build, optional}
use lv_fixus.Error.{ok}
use lv_fixus.Models.EventType.{llm_invoked, llm_completed, tool_invoked, summary_marker}
use lv_fixus.Models.Payload.{absent, required, validate_payload_required_fields}
use lv_fixus.Models.Payload.Fields.{UsagePresent, validate_payload_iff}
use lv_fixus.Service.Steps.{
  Usage, usage_value, llm_invoked_payload, llm_completed_payload, tool_invoked_payload,
}
use lv_fixus.Service.Summary.{summary_payload}

skip_optional :
    {V A : Type 0} (k key : String) (f : A → V) (o : Option A) (ms : List (String × V))
    → (k == key) ≡ false
    → match_str (optional k f o ++ ms) key ≡ match_str ms key
skip_optional k key f none ms h = refl
skip_optional k key f (some a) ms h = rw h refl

present_of :
    (j : Json) (o : Option j.Value) (v w : j.Value) (key : String)
    → j.get v key ≡ o
    → o ≡ some w
    → j.is_null w ≡ false
    → absent j v key ≡ false
present_of j none v w key g h n = absurd (ground arith)
present_of j (some x) v w key g h n = ground arith

abbrev usage_or_none : (j : Json) (b : Build j) → Option Usage → Option j.Value
usage_or_none j b none = none
usage_or_none j b (some u) = some (usage_value j b u)

module _ (j : Json) (b : Build j) where
  open b use {object, string, int, get-object, is_null-string, is_null-int, is_null-object}

  -- a member that the literal finds and that is not null is present
  found_member :
      (ms : List (String × j.Value)) (key : String) (v : j.Value)
      → match_str ms key ≡ some v
      → j.is_null v ≡ false
      → absent j (object ms) key ≡ false
  found_member ms key v m h =
      present_of j (match_str ms key) (object ms) v key (get-object ms key) m h

  usage_present : (u : Usage) → UsagePresent j (some (usage_value j b u))
  usage_present u = (
    found_member _ "prompt_tokens" (int u.prompt_tokens) refl (is_null-int _),
    found_member _ "completion_tokens" (int u.completion_tokens) refl (is_null-int _),
  )

  UsagePresent-of : (o : Option Usage) → UsagePresent j (usage_or_none j b o)
  UsagePresent-of none = tt
  UsagePresent-of (some u) = usage_present u

  usage_member :
      (usage : Option Usage) (finish : Option String)
      → match_str
          (optional "usage" (usage_value j b) usage ++ optional "finish_reason" string finish)
          "usage"
        ≡ usage_or_none j b usage
  usage_member none none = refl
  usage_member none (some f) = refl
  usage_member (some u) finish = refl

  completed_usage :
      (model : String) (content : Option String) (calls : Option j.Value) (usage : Option Usage)
      (finish : Option String) (n : ℤ)
      → j.get (llm_completed_payload j b model content calls usage finish n) "usage"
        ≡ usage_or_none j b usage
  completed_usage model content calls usage finish n =
      get-object _ "usage"
      ∙ skip_optional "content" "usage" string content _ refl
      ∙ skip_optional "tool_calls" "usage" (λ v. v) calls _ refl
      ∙ usage_member usage finish

  -- The payloads that the service writes for LLM calls, tool calls and summaries pass the check of
  -- required fields on the write path, whatever the optional arguments are, if the messages do not
  -- serialize to `null`.
  pub payloads_pass :
      (model name call key text : String) (messages input : j.Value) (v w : Option j.Value)
      (content finish parent dir : Option String) (usage : Option Usage) (n m k : ℤ)
      (timeout : Option ℕ)
      → j.is_null messages ≡ false
      → (validate_payload_required_fields j llm_invoked
            (llm_invoked_payload j b model messages v w n)
          ≡ ok tt)
        × (validate_payload_required_fields j llm_completed
              (llm_completed_payload j b model content v usage finish n)
            ≡ ok tt)
        × (validate_payload_required_fields j tool_invoked
              (tool_invoked_payload j b name call key input parent n dir timeout)
            ≡ ok tt)
        × (validate_payload_required_fields j summary_marker (summary_payload j b n m text k)
            ≡ ok tt)
  unfolding required
  payloads_pass model name call key text messages input v w content finish parent dir usage n m k
        timeout h =
      (
        (validate_payload_iff j llm_invoked _).1 (
          (
            found_member _ "model" (string model) refl (is_null-string _),
            (
              found_member _ "messages" messages refl h,
              (found_member _ "local_seq" (int n) refl (is_null-int _), tt),
            ),
          ),
          λ c. absurd (ground arith),
        ),
        (validate_payload_iff j llm_completed _).1 (
          (
            found_member _ "model" (string model) refl (is_null-string _),
            (found_member _ "local_seq" (int n) refl (is_null-int _), tt),
          ),
          λ c.
              subst (UsagePresent j) (sym (completed_usage model content v usage finish n))
                (UsagePresent-of usage),
        ),
        (validate_payload_iff j tool_invoked _).1 (
          (
            found_member _ "tool_name" (string name) refl (is_null-string _),
            (
              found_member _ "tool_call_id" (string call) refl (is_null-string _),
              (
                found_member _ "idempotency_key" (string key) refl (is_null-string _),
                (found_member _ "local_seq" (int n) refl (is_null-int _), tt),
              ),
            ),
          ),
          λ c. absurd (ground arith),
        ),
        (validate_payload_iff j summary_marker _).1 (
          (
            found_member _ "summarized_up_to_seq" (int m) refl (is_null-int _),
            (
              found_member _ "summarized_up_to_turn_id" (int n) refl (is_null-int _),
              (found_member _ "summary" (string text) refl (is_null-string _), tt),
            ),
          ),
          λ c. absurd (ground arith),
        ),
      )
