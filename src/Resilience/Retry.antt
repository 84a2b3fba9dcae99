-- ===== src/Resilience/Retry.antt =====
-- src/capabilityhub/resilience.py: `RetryPolicy`. Seconds are counted in a unit of time, and the
-- multiplier is a fraction; a delay is rounded down to the unit.
pub mod Decisions
use capabilityhub.Base.{
  ℕ, zero, suc, ◌-◌, ◌*◌, ◌/◌, ◌^◌, min, String, Bool, true, false, ◌&&◌, ◌||◌, not, Option, none,
  some, ltb, if◌then◌else◌, is_blank,
}
use capabilityhub.Errors.{
  CapabilityHubError, ErrorCategory, provider, dependency, timeout, internal, value_error,
}
use capabilityhub.Models.{SideEffect}
use capabilityhub.Result.{Result, ok, raise, raise_if, ◌>>◌}

pub data FailureCertainty : Type 0 where
  not_applied uncertain : FailureCertainty

pub data Reason : Type 0 where
  failure_uncertain error_category_denied error_not_retryable safe_operation : Reason
  idempotency_key_present operation_not_safe_to_repeat : Reason

pub record RetryDecision : Type 0 where
  pub allowed : Bool
  pub reason : Reason

pub record RetryPolicy : Type 0 where
  pub max_attempts : ℕ
  pub initial_backoff : ℕ
  pub multiplier_num : ℕ
  pub multiplier_den : ℕ
  pub max_backoff : ℕ

-- The `__post_init__` checks; a time that is not finite or negative has no number here.
unfoldable pub create_policy : RetryPolicy → Result RetryPolicy
create_policy p = do
  raise_if (ltb p.max_attempts 1) value_error
  raise_if (ltb p.multiplier_num p.multiplier_den) value_error
  ok p

-- The categories that may be retried.
abbrev pub retry_category : ErrorCategory → Bool
retry_category provider = true
retry_category dependency = true
retry_category timeout = true
retry_category _ = false

abbrev is_safe : SideEffect → Bool
is_safe SideEffect.none = true
is_safe SideEffect.read = true
is_safe SideEffect.reversible_write = false
is_safe SideEffect.irreversible = false

abbrev is_reversible_write : SideEffect → Bool
is_reversible_write SideEffect.reversible_write = true
is_reversible_write _ = false

abbrev is_not_applied : FailureCertainty → Bool
is_not_applied not_applied = true
is_not_applied uncertain = false

-- `key is not None and bool(key.strip())`
abbrev pub has_key : Option String → Bool
has_key none = false
has_key (some key) = not (is_blank key)

-- `decide`, over the operation's side effect and the request's idempotency key.
unfoldable pub decide_retry :
    CapabilityHubError → SideEffect → Option String → FailureCertainty → RetryDecision
decide_retry error side_effect key certainty =
    if not (is_not_applied certainty)
    then record { allowed = false; reason = failure_uncertain }
    else if not (retry_category error.category)
    then record { allowed = false; reason = error_category_denied }
    else if not error.retryable
    then record { allowed = false; reason = error_not_retryable }
    else if is_safe side_effect
    then record { allowed = true; reason = safe_operation }
    else if is_reversible_write side_effect && has_key key
    then record { allowed = true; reason = idempotency_key_present }
    else record { allowed = false; reason = operation_not_safe_to_repeat }

-- `backoff_seconds` of a retry number from 1. Numbers are unbounded here: the `OverflowError` of a
-- power beyond Python's floats is not modelled.
unfoldable pub backoff_seconds : RetryPolicy → ℕ → Result ℕ
backoff_seconds p retry_number = do
  raise_if (ltb retry_number 1) value_error
  ok (
      min
        (p.initial_backoff
          * p.multiplier_num ^ (retry_number - 1)
          / p.multiplier_den ^ (retry_number - 1))
        p.max_backoff)
