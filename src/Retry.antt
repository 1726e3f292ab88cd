-- ===== src/Retry.antt =====
-- src/retry.rs: the retry budget of a turn. `i32` counters are integers, and the sum wraps.
use lv_fixus.Common.{
  Bool, true, false, ◌&&◌, if◌then◌else◌, ◌≡◌, ℕ, suc, List, [], ◌∷◌, Option, none, some,
}
use lv_fixus.Common.Int.{ℤ, pos, ltb_ℤ, add_i32}
use lv_fixus.Models.Failure.{FailureReason, is_retryable}
pub mod Budget

pub record RetryPolicy : Type 0 where
  pub max_attempts : ℤ

unfoldable pub default : RetryPolicy
default = record { max_attempts = pos 2 }

pub data RetryDecision : Type 0 where
  retry : FailureReason → ℤ → RetryDecision
  fail : FailureReason → Bool → RetryDecision

unfoldable pub decide : RetryPolicy → FailureReason → ℤ → RetryDecision
decide p reason current_redo_count =
    if is_retryable reason && ltb_ℤ current_redo_count p.max_attempts
    then retry reason (add_i32 current_redo_count (pos 1))
    else fail reason (is_retryable reason)

-- One turn that fails again and again, as `handle_turn_execution_error` of src/orchestrator.rs sees
-- it: its counter starts at `current`, a retry stores the next count, a failure ends the turn. The
-- result is the number of retries, and the final failure if the reasons lead to one.
unfoldable pub failures : RetryPolicy → ℤ → List FailureReason → ℕ × Option (FailureReason × Bool)
failures p current [] = (0, none)
failures p current (reason ∷ rest) = elim (decide p reason current) [
  | retry r next ↦ (let (n, out) = failures p (add_i32 current (pos 1)) rest in (suc n, out))
  | fail r exhausted ↦ (0, some (r, exhausted))
]
