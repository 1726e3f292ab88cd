-- ===== src/Tests/Retry.antt =====
-- The theorems on src/retry.rs at concrete budgets.
use lv_fixus.Common.{true, List, [], ◌∷◌, ◌≡◌, refl, arith, all, ◌<◌, ◌≤◌, some, length}
use lv_fixus.Common.Int.{pos, ◌+ℤ◌, add_i32}
use lv_fixus.Models.Failure.{FailureReason, broker_error, sandbox_timeout, is_retryable}
use lv_fixus.Retry.{RetryPolicy, decide, failures}
use lv_fixus.Retry.Budget.{failures_budget}

abbrev two : RetryPolicy
two = record { max_attempts = pos 2 }

abbrev outage : List FailureReason
outage = broker_error ∷ sandbox_timeout ∷ broker_error ∷ []

failures-outage : failures two (pos 0) outage ≡ (2, some (broker_error, true))
unfolding failures decide is_retryable add_i32 ◌+ℤ◌
failures-outage = refl

failures_budget_example :
    ((failures two (pos 0) outage).0 ≤ 2)
    × (all is_retryable outage ≡ true
        → 2 < length outage
        → ((failures two (pos 0) outage).0 ≡ 2)
          × (r : FailureReason) × ((failures two (pos 0) outage).1 ≡ some (r, true)))
failures_budget_example = failures_budget two 2 outage refl (omega arith)
