-- ===== src/Models/Failure.antt =====
-- `FailureReason` and `classify_failure` of src/models.rs.
use lv_fixus.Common.{
  String, Bool, true, false, Option, none, some, List, [], ◌∷◌, ◌≡◌, ◌≢◌, refl, ◌↔◌, arith,
}
use lv_fixus.Common.Literal.{match_str, match_str_sound}

pub data FailureReason : Type 0 where
  agent_spawn_failed session_create_failed agent_process_exited redo_dispatch_failed : FailureReason
  broker_error sandbox_timeout agent_unresponsive : FailureReason
  application_error policy canceled : FailureReason
  unknown : FailureReason

unfoldable pub as_str : FailureReason → String
as_str agent_spawn_failed = "agent_spawn_failed"
as_str session_create_failed = "session_create_failed"
as_str agent_process_exited = "agent_process_exited"
as_str redo_dispatch_failed = "redo_dispatch_failed"
as_str broker_error = "broker_error"
as_str sandbox_timeout = "sandbox_timeout"
as_str agent_unresponsive = "agent_unresponsive"
as_str application_error = "application_error"
as_str policy = "policy"
as_str canceled = "canceled"
as_str unknown = "unknown"

unfoldable pub is_retryable : FailureReason → Bool
is_retryable agent_spawn_failed = true
is_retryable session_create_failed = true
is_retryable agent_process_exited = true
is_retryable redo_dispatch_failed = true
is_retryable broker_error = true
is_retryable sandbox_timeout = true
is_retryable agent_unresponsive = true
is_retryable unknown = true
is_retryable _ = false

-- the arms of `classify_failure` before its catch-all
abbrev pub failure_arms : List (String × FailureReason)
failure_arms =
    ("agent_spawn_failed", agent_spawn_failed)
    ∷ ("session_create_failed", session_create_failed)
    ∷ ("agent_process_exited", agent_process_exited)
    ∷ ("redo_dispatch_failed", redo_dispatch_failed)
    ∷ ("broker_error", broker_error)
    ∷ ("sandbox_timeout", sandbox_timeout)
    ∷ ("agent_unresponsive", agent_unresponsive)
    ∷ ("application_error", application_error)
    ∷ ("policy", policy)
    ∷ ("canceled", canceled)
    ∷ []

abbrev or_unknown : Option FailureReason → FailureReason
or_unknown none = unknown
or_unknown (some r) = r

-- the error message is not read
unfoldable pub classify_failure : String → String → FailureReason
classify_failure error_type error_message = or_unknown (match_str failure_arms error_type)

classify-as_str : (r : FailureReason) (msg : String) → classify_failure (as_str r) msg ≡ r
unfolding classify_failure as_str
classify-as_str agent_spawn_failed msg = refl
classify-as_str _ msg = refl

-- For a reason other than `unknown`, an error type is classified as it exactly when it is its name.
pub classify_failure_iff :
    (s msg : String) (r : FailureReason)
    → r ≢ unknown
    → (classify_failure s msg ≡ r) ↔ (as_str r ≡ s)
classify_failure_iff s msg r known =
    (λ h. named (match_str failure_arms s) refl h, λ e. rw (← e) (classify-as_str r msg))
  where
    named :
        (o : Option FailureReason)
        → match_str failure_arms s ≡ o
        → classify_failure s msg ≡ r
        → as_str r ≡ s
    named none m h = absurd (known (unfold classify_failure in ground arith))
    named (some q) m h =
        let q_is_r : q ≡ r = unfold classify_failure in ground arith in
        rw (← q_is_r) (unfold as_str in match_str_sound as_str failure_arms s refl m)
