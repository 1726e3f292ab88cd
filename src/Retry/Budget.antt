-- ===== src/Retry/Budget.antt =====
-- The retry budget of src/retry.rs over a run of failures.
use lv_fixus.Common.{
  true, false, ◌≡◌, ◌⊎◌, inl, inr, refl, arith, Bool-cases, ℕ, suc, ◌+◌, ◌≤◌, ◌<◌, List, [], ◌∷◌,
  some, length, all, and_true, ◌&&◌, ap,
}
use native.Mathlib.Decide.{dec_lt}
use lv_fixus.Common.Int.{
  ℤ, pos, ltb_ℤ, add_i32, ◌+ℤ◌, ◌<ℤ◌, ◌≤ℤ◌, IsI32, half32, add_i32_exact, int_laws,
}
use lv_fixus.Models.Failure.{FailureReason, is_retryable}
use lv_fixus.Retry.{RetryPolicy, retry, fail, decide, failures}

room : (c m : ℤ) → IsI32 c → IsI32 m → c <ℤ m → IsI32 (c +ℤ pos 1)
unfolding ◌+ℤ◌
room c m hc hm h = ground arith

next_exact : (c m : ℤ) → IsI32 c → IsI32 m → c <ℤ m → add_i32 c (pos 1) ≡ c +ℤ pos 1
next_exact c m hc hm h = add_i32_exact c (pos 1) (room c m hc hm h)

-- A turn is retried exactly when its reason is retryable and its count is below the budget; then the
-- reason is kept, and the next count is one more, within the budget and without wrapping. Otherwise
-- it fails with its reason, marked as out of budget exactly when the reason is retryable.
pub decide_cases :
    (p : RetryPolicy) (r : FailureReason) (c : ℤ)
    → IsI32 c
    → IsI32 p.max_attempts
    → ((is_retryable r ≡ true)
        × (c <ℤ p.max_attempts)
        × (decide p r c ≡ retry r (c +ℤ pos 1))
        × (c +ℤ pos 1 ≤ℤ p.max_attempts))
      ⊎ (((is_retryable r ≡ true) → p.max_attempts ≤ℤ c) × (decide p r c ≡ fail r (is_retryable r)))
unfolding decide
decide_cases p r c hc hm = elim (Bool-cases (is_retryable r && ltb_ℤ c p.max_attempts)) [
  | inl e ↦ inl (
    (and_true _ _ e).0,
    below e,
    rw e (ap (retry r) (next_exact c p.max_attempts hc hm (below e))),
    up (below e),
  )
  | inr e ↦ inr (λ t. ground arith, rw e refl)
]
  where
    below : (is_retryable r && ltb_ℤ c p.max_attempts) ≡ true → c <ℤ p.max_attempts
    below e = ground arith

    up : c <ℤ p.max_attempts → c +ℤ pos 1 ≤ℤ p.max_attempts
    up h = omega int_laws

module _ (p : RetryPolicy) (m : ℕ) (budget : p.max_attempts ≡ pos m) (fits : m < half32) where
  add_in : (k : ℕ) → k < m → add_i32 (pos k) (pos 1) ≡ pos (k + 1)
  unfolding add_i32 ◌+ℤ◌
  add_in k h = ground arith

  decide_in :
      (k : ℕ) (r : FailureReason)
      → k < m
      → is_retryable r ≡ true
      → decide p r (pos k) ≡ retry r (pos (k + 1))
  unfolding decide
  decide_in k r h t = ground (arith, add_in k h)

  decide_out :
      (k : ℕ) (r : FailureReason)
      → ((is_retryable r ≡ false) ⊎ (m ≤ k))
      → decide p r (pos k) ≡ fail r (is_retryable r)
  unfolding decide
  decide_out k r h = ground arith

  retries_in :
      (k : ℕ) (r : FailureReason) (rs : List FailureReason)
      → k < m
      → is_retryable r ≡ true
      → failures p (pos k) (r ∷ rs)
        ≡ (suc (failures p (pos (k + 1)) rs).0, (failures p (pos (k + 1)) rs).1)
  unfolding failures
  retries_in k r rs h t = rw (decide_in k r h t, failures) (rw (add_in k h) refl)

  retries_out :
      (k : ℕ) (r : FailureReason) (rs : List FailureReason)
      → ((is_retryable r ≡ false) ⊎ (m ≤ k))
      → failures p (pos k) (r ∷ rs) ≡ (0, some (r, is_retryable r))
  unfolding failures
  retries_out k r rs h = rw (decide_out k r h, failures) refl

  retries-le : (k : ℕ) (rs : List FailureReason) → k ≤ m → k + (failures p (pos k) rs).0 ≤ m
  retries-le k [] h = unfold failures in omega arith
  retries-le k (r ∷ rs) h = elim (Bool-cases (is_retryable r)) [
    | inr e ↦ rw (retries_out k r rs (inl e)) (omega arith)
    | inl e ↦ elim (dec_lt k m) [
      | yes lt ↦ rw (retries_in k r rs lt e) (omega (arith, retries-le (k + 1) rs (omega arith)))
      | no ge ↦ rw (retries_out k r rs (inr (omega arith))) (omega arith)
    ]
  ]

  retries_all :
      (k : ℕ) (rs : List FailureReason)
      → k ≤ m
      → all is_retryable rs ≡ true
      → m < k + length rs
      → (k + (failures p (pos k) rs).0 ≡ m)
        × (r : FailureReason) × ((failures p (pos k) rs).1 ≡ some (r, true))
  retries_all k [] h a l = absurd (omega arith)
  retries_all k (r ∷ rs) h a l = elim (dec_lt k m) [
    | yes lt ↦
        let (n, q, out) = retries_all (k + 1) rs (omega arith) (and_true _ _ a).1 (omega arith) in
        rw (retries_in k r rs lt (and_true _ _ a).0) (omega (arith, n), q, out)
    | no ge ↦
        rw (retries_out k r rs (inr (omega arith)))
          (omega arith, r, ap (λ b. some (r, b)) (and_true _ _ a).0)
  ]

-- From a fresh counter a turn is retried at most `max_attempts` times, whatever the reasons; and if
-- more than `max_attempts` reasons follow one another and all are retryable, it is retried exactly
-- that often and then fails as out of budget.
pub failures_budget :
    (p : RetryPolicy) (m : ℕ) (rs : List FailureReason)
    → p.max_attempts ≡ pos m
    → m < half32
    → ((failures p (pos 0) rs).0 ≤ m)
      × (all is_retryable rs ≡ true
          → m < length rs
          → ((failures p (pos 0) rs).0 ≡ m)
            × (r : FailureReason) × ((failures p (pos 0) rs).1 ≡ some (r, true)))
failures_budget p m rs b f = (
  omega (arith, retries-le p m b f 0 rs (omega arith)),
  λ a l.
      let (n, q, out) = retries_all p m b f 0 rs (omega arith) a (omega arith) in
      (omega (arith, n), q, out),
)
