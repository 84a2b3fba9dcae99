-- ===== src/Resilience/Retry/Decisions.antt =====
-- src/capabilityhub/resilience.py: when a failed call may be repeated, and after what delay.
use capabilityhub.Base.{ℕ, ◌≤◌, String, ◌≡◌, ◌↔◌, ◌⊎◌, true, Option, arith}
use capabilityhub.Errors.{CapabilityHubError}
use capabilityhub.Models.{SideEffect}
use capabilityhub.Result.{ok}
use capabilityhub.Resilience.Retry.{
  FailureCertainty, not_applied, RetryPolicy, retry_category, has_key, decide_retry,
  backoff_seconds,
}

-- A failed call may be repeated exactly when it is certain that it was not applied, its error is
-- retryable and of a category that may be retried, and the operation reads or does nothing, or is a
-- write that can be taken back and carries an idempotency key.
pub decide_retry_iff :
    (error : CapabilityHubError) (s : SideEffect) (key : Option String)
    (certainty : FailureCertainty)
    → ((decide_retry error s key certainty).allowed ≡ true) ↔ (
        (certainty ≡ not_applied)
        × (retry_category error.category ≡ true)
        × (error.retryable ≡ true)
        × ((s ≡ SideEffect.none)
            ⊎ ((s ≡ SideEffect.read) ⊎ ((s ≡ SideEffect.reversible_write) × (has_key key ≡ true)))))
unfolding decide_retry
decide_retry_iff error s key certainty =
    (λ h. (ground arith, ground arith, ground arith, ground arith), λ h. ground arith)

pub backoff_seconds-le :
    (p : RetryPolicy) (n delay : ℕ) → backoff_seconds p n ≡ ok delay → delay ≤ p.max_backoff
unfolding backoff_seconds
backoff_seconds-le p n delay e = ground arith
