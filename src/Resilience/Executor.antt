-- ===== src/Resilience/Executor.antt =====
-- src/capabilityhub/resilience.py: `ResilientProviderExecutor`, the loop of calls around one
-- provider. The clock, the provider and the classifier are not the program's: they are functions
-- here, from the number of the reading or of the call. A reading that a branch does not make is
-- skipped. Sleeping shows in the next reading.
pub mod Rounds
pub mod Attempts
use capabilityhub.Base.{
  ℕ, zero, suc, ◌+◌, String, Bool, true, false, not, Option, none, some, leb, ◌==◌, if◌then◌else◌,
  ite, text_dec, ◌||◌,
}
use capabilityhub.Errors.{
  CapabilityHubError, ErrorCategory, provider, dependency, timeout, internal, hub, hub_error, Exc,
  runtime_error,
}
use capabilityhub.Models.{SideEffect}
use capabilityhub.Result.{Result, ok, raise, raise_if}
use capabilityhub.Exec.{Exec, ◌>>=◌, ◌>>◌, pure, throw, lift, gets, modify}
use capabilityhub.Resilience.Retry.{
  FailureCertainty, not_applied, uncertain, RetryPolicy, decide_retry, backoff_seconds,
}
use capabilityhub.Resilience.Circuit.{
  CircuitBreaker, CircuitPermit, acquire, record_success, record_failure,
}

-- How a call of the provider ends: it returns, raises the program's error, or raises another.
pub data Outcome (A : Type 0) : Type 0 where
  returned : A → Outcome A
  failed : CapabilityHubError → Outcome A
  crashed : Outcome A

pub record Trace : Type 0 where
  pub breaker : CircuitBreaker
  pub readings : ℕ
  pub calls : ℕ

-- One round of the loop ends the loop, or sleeps and goes on.
pub data Round (A : Type 0) : Type 0 where
  done : A → Round A
  again : Round A

-- The categories that count as failures of the circuit.
abbrev pub countable_category : ErrorCategory → Bool
countable_category provider = true
countable_category dependency = true
countable_category timeout = true
countable_category internal = true
countable_category _ = false

abbrev pub deadline_error : Exc
deadline_error = hub_error "provider_retry_deadline_exhausted" timeout

abbrev pub exhausted_error : Exc
exhausted_error = hub_error "provider_retry_exhausted" provider

abbrev pub unhandled_error : Exc
unhandled_error = hub_error "provider_resilience_unhandled" provider

-- `classify_adapter_failure`
unfoldable pub classify_adapter_failure : CapabilityHubError → FailureCertainty
classify_adapter_failure error =
    if ite (text_dec error.code "cli_start_failed") true false
      || ite (text_dec error.code "provider_worker_start_failed") true false
    then not_applied
    else uncertain

-- A classifier that raises counts as uncertain.
abbrev pub certainty_of : Option FailureCertainty → FailureCertainty
certainty_of none = uncertain
certainty_of (some c) = c

-- What `execute` is given; `classify` returns `none` where it raises.
pub record Call (A : Type 0) : Type 0 where
  pub policy : RetryPolicy
  pub provider_key : String
  pub side_effect : SideEffect
  pub idempotency_key : Option String
  pub clock : ℕ → ℕ
  pub outcome : ℕ → Outcome A
  pub classify : CapabilityHubError → Option FailureCertainty

module _ {A : Type 0} (c : Call A) where
  open c use {policy, provider_key, side_effect, idempotency_key, clock, outcome, classify}

  abbrev pub read_clock : Exec Trace ℕ
  read_clock t = (ok (clock t.readings), record t { readings = t.readings + 1 })

  abbrev pub on_breaker : (CircuitBreaker → CircuitBreaker) → Exec Trace (Unit {0})
  on_breaker f t = (ok tt, record t { breaker = f t.breaker })

  unfoldable pub acquire_permit : Exec Trace CircuitPermit
  acquire_permit t =
      let (r, b) = acquire provider_key (clock t.readings) t.breaker in
      (r, record t { breaker = b; readings = t.readings + 1 })

  unfoldable pub call_provider : Exec Trace (Outcome A)
  call_provider t = (ok (outcome t.calls), record t { calls = t.calls + 1 })

  -- The `except CapabilityHubError` branch, in the attempt of that number.
  unfoldable pub handle_error : ℕ → ℕ → CircuitPermit → CapabilityHubError → Exec Trace (Round A)
  handle_error deadline attempts permit error = do
    opened ← read_clock
    on_breaker (record_failure permit (countable_category error.category) opened)
    lift (
        raise_if
          (not
            (decide_retry error side_effect idempotency_key
              (certainty_of (classify error))).allowed)
          (hub error))
    lift (raise_if (leb policy.max_attempts attempts) exhausted_error)
    delay ← lift (backoff_seconds policy attempts)
    now ← read_clock
    lift (raise_if (leb deadline (now + delay)) deadline_error)
    pure again

  -- The three ways out of the `try`.
  unfoldable pub handle : ℕ → ℕ → CircuitPermit → Outcome A → Exec Trace (Round A)
  handle deadline attempts permit (returned a) = do
    on_breaker (record_success permit)
    pure (done a)
  handle deadline attempts permit (failed error) = handle_error deadline attempts permit error
  handle deadline attempts permit crashed = do
    opened ← read_clock
    on_breaker (record_failure permit true opened)
    throw unhandled_error

  -- One round of `while True`, after `attempts` rounds.
  unfoldable pub attempt : ℕ → ℕ → Exec Trace (Round A)
  attempt deadline attempts = do
    now ← read_clock
    lift (raise_if (leb deadline now) deadline_error)
    permit ← acquire_permit
    result ← call_provider
    handle deadline (attempts + 1) permit result

  -- The loop; the fuel bounds the rounds.
  unfoldable pub attempt_loop : ℕ → ℕ → ℕ → Exec Trace A
  attempt_loop zero deadline attempts = throw runtime_error
  attempt_loop (suc fuel) deadline attempts = do
    round ← attempt deadline attempts
    elim round [ done a ↦ pure a | again ↦ attempt_loop fuel deadline (attempts + 1) ]

  -- `execute`, of a finite deadline that is not negative. No more rounds are made than attempts.
  unfoldable pub execute : ℕ → Exec Trace A
  execute deadline_seconds = do
    start ← read_clock
    attempt_loop policy.max_attempts (start + deadline_seconds) 0
