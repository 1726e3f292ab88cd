-- ===== src/Models/Payload/Fields.antt =====
-- The payload check against the fields of a payload.
use lv_fixus.Common.{
  String, true, false, Option, none, some, List, [], ◌∷◌, ◌≡◌, refl, ◌↔◌, inl, inr, arith, All,
  Bool-cases,
}
use lv_fixus.Models.EventType.{
  EventType, llm_completed, llm_invoked, tool_invoked, summary_marker, is_llm_completed,
}
use lv_fixus.Models.Payload.{
  llm_invoked_fields, llm_completed_fields, tool_invoked_fields, summary_marker_fields, required,
  absent, check_fields, check_usage, usage_fields, usage_of, validate_payload_required_fields,
}
use lv_fixus.Error.{Result, ok, err, ◌>>◌}
use lv_fixus.Json.{Json}

module _ (j : Json) where
  open j use {Value, get}

  -- Each of the fields is present and not null.
  abbrev pub Present : Value → List String → Type 0
  Present v fields = All (λ f. absent j v f ≡ false) fields

  abbrev pub RequiredPresent : EventType → Value → Option (List String) → Type 0
  RequiredPresent e v none = Unit
  RequiredPresent e v (some fields) = Present v fields

  abbrev pub UsagePresent : Option Value → Type 0
  UsagePresent none = Unit
  UsagePresent (some u) =
      (absent j u "prompt_tokens" ≡ false) × (absent j u "completion_tokens" ≡ false)

  check_fields_iff :
      (e : EventType) (v : Value) (fields : List String)
      → (check_fields j e v fields ≡ ok tt) ↔ Present v fields
  unfolding check_fields
  check_fields_iff e v [] = (λ h. tt, λ h. refl)
  check_fields_iff e v (f ∷ fs) = elim (Bool-cases (absent j v f)) [
    | inl a ↦ (λ h. absurd (ground arith), λ h. ground arith)
    | inr a ↦ (
      λ h. (a, (check_fields_iff e v fs).0 (rw a at h)),
      λ h. rw a ((check_fields_iff e v fs).1 h.1),
    )
  ]

  check_usage_iff :
      (e : EventType) (u : Value)
      → (check_usage j e u usage_fields ≡ ok tt)
        ↔ ((absent j u "prompt_tokens" ≡ false) × (absent j u "completion_tokens" ≡ false))
  unfolding check_usage
  check_usage_iff e u = ground arith

  usage_of_iff : (e : EventType) (o : Option Value) → (usage_of j e o ≡ ok tt) ↔ UsagePresent o
  usage_of_iff e none = (λ h. tt, λ h. refl)
  usage_of_iff e (some u) = check_usage_iff e u

  then_ok : (m k : Result (Unit {0})) → ((m >> k) ≡ ok tt) ↔ ((m ≡ ok tt) × (k ≡ ok tt))
  then_ok (ok tt) k = (λ h. (refl, h), λ h. h.1)
  then_ok (err x) k = (λ h. absurd (ground arith), λ h. absurd (ground arith))

  check_plain_iff :
      (e : EventType) (v : Value) (fs : List String)
      → ((check_fields j e v fs >> ok (tt {0})) ≡ ok tt) ↔ Present v fs
  check_plain_iff e v fs = (
    λ h. (check_fields_iff e v fs).0 ((then_ok _ _).0 h).0,
    λ h. (then_ok _ _).1 ((check_fields_iff e v fs).1 h, refl),
  )

  -- The payload check passes exactly the payloads in which each field that the event type requires is
  -- present and not null and, for a completed call with a `usage`, so are its two token counts.
  pub validate_payload_iff :
      (e : EventType) (v : Value)
      → (validate_payload_required_fields j e v ≡ ok tt) ↔ (
          RequiredPresent e v (required e)
          × (is_llm_completed e ≡ true → UsagePresent (get v "usage")))
  unfolding validate_payload_required_fields
  validate_payload_iff llm_completed v = (
    λ h.
        let (f, u) = (then_ok _ _).0 h in
        (
          (check_fields_iff llm_completed v llm_completed_fields).0 f,
          λ c. (usage_of_iff llm_completed (get v "usage")).0 u,
        ),
    λ (f, u). (then_ok _ _).1 (
      (check_fields_iff llm_completed v llm_completed_fields).1 f,
      (usage_of_iff llm_completed (get v "usage")).1 (u refl),
    ),
  )
  validate_payload_iff llm_invoked v = (
    λ h. ((check_plain_iff llm_invoked v llm_invoked_fields).0 h, λ c. absurd (ground arith)),
    λ (f, u). (check_plain_iff llm_invoked v llm_invoked_fields).1 f,
  )
  validate_payload_iff tool_invoked v = (
    λ h. ((check_plain_iff tool_invoked v tool_invoked_fields).0 h, λ c. absurd (ground arith)),
    λ (f, u). (check_plain_iff tool_invoked v tool_invoked_fields).1 f,
  )
  validate_payload_iff summary_marker v = (
    λ h. ((check_plain_iff summary_marker v summary_marker_fields).0 h, λ c. absurd (ground arith)),
    λ (f, u). (check_plain_iff summary_marker v summary_marker_fields).1 f,
  )
  validate_payload_iff _ v = (λ h. (tt, λ c. absurd (ground arith)), λ p. refl)
