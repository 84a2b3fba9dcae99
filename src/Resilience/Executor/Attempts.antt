-- ===== src/Resilience/Executor/Attempts.antt =====
-- src/capabilityhub/resilience.py: how often `execute` calls the provider, and what it returns.
use capabilityhub.Base.{
  ℕ, zero, suc, ◌+◌, ◌≤◌, ◌<◌, String, ◌≡◌, ◌≢◌, refl, ◌⊎◌, true, false, Option, arith, ℕ_discrete,
}
use capabilityhub.Errors.{Exc, runtime_error, CapabilityHubError}
use capabilityhub.Result.{Result, ok, raise}
use capabilityhub.Models.{SideEffect}
use native.Mathlib.Decide.{dec_le}
use capabilityhub.Resilience.Retry.{FailureCertainty, has_key, decide_retry}
use capabilityhub.Resilience.Executor.{
  returned, failed, Trace, Round, done, again, certainty_of, Call, attempt, attempt_loop, execute,
}
use capabilityhub.Resilience.Executor.Rounds.{IsRepeatable, Rounded, attempt-Rounded}

-- What the loop has done: at most as many calls as rounds are left; if it returns, the last call
-- returned that value; and every call but the last failed with an error that may be repeated.
pub record Looped {A : Type 0} (c : Call A) (rounds : ℕ) (t : Trace) (p : Result A × Trace)
    : Type 0 where
  pub bounded : p.1.calls ≤ t.calls + rounds
  pub grows : t.calls ≤ p.1.calls
  pub returns_last :
      (a : A) → p.0 ≡ ok a → (i : ℕ) × (p.1.calls ≡ i + 1) × (c.outcome i ≡ returned a)
  pub repeats_safe :
      (i : ℕ)
      → t.calls ≤ i
      → i + 1 < p.1.calls
      → (e : CapabilityHubError) × (c.outcome i ≡ failed e) × IsRepeatable c e
  pub no_runtime_error : p.0 ≢ raise runtime_error

module _ {A : Type 0} (c : Call A) (deadline : ℕ) where
  -- A round that goes on, and then the rest.
  Looped-again :
      (attempts fuel : ℕ) (t t' : Trace) (p : Result A × Trace)
      → Rounded c (attempts + 1) t (ok again, t')
      → Looped c fuel t' p
      → Looped c (suc fuel) t p
  Looped-again attempts fuel t t' p r l = record {
    bounded = omega (arith, r.0, l.bounded);
    grows = omega (arith, r.0, l.grows);
    returns_last = l.returns_last;
    repeats_safe = λ i lo hi. elim (ℕ_discrete i t.calls) [
      | yes first ↦ rw first r.2
      | no later ↦ l.repeats_safe i (omega (arith, r.0)) hi
    ];
    no_runtime_error = l.no_runtime_error;
  }

  module _ (fuel attempts : ℕ) (t : Trace) where
    loop_raise :
        (x : Exc) (t' : Trace)
        → attempt c deadline attempts t ≡ (raise x, t')
        → attempt_loop c (suc fuel) deadline attempts t ≡ (raise x, t')
    unfolding attempt_loop
    loop_raise x t' e = ground arith

    loop_done :
        (a : A) (t' : Trace)
        → attempt c deadline attempts t ≡ (ok (done a), t')
        → attempt_loop c (suc fuel) deadline attempts t ≡ (ok a, t')
    unfolding attempt_loop
    loop_done a t' e = ground arith

    loop_again :
        (t' : Trace)
        → attempt c deadline attempts t ≡ (ok again, t')
        → attempt_loop c (suc fuel) deadline attempts t
          ≡ attempt_loop c fuel deadline (attempts + 1) t'
    unfolding attempt_loop
    loop_again t' e = ground arith

  attempt_loop-Looped :
      (fuel attempts : ℕ) (t : Trace)
      → 0 < fuel
      → attempts + fuel ≡ c.policy.max_attempts
      → Looped c fuel t (attempt_loop c fuel deadline attempts t)
  attempt_loop-Looped zero attempts t some_left counted = absurd (omega arith)
  attempt_loop-Looped (suc fuel) attempts t some_left counted =
      by_round (attempt c deadline attempts t) refl (attempt-Rounded c deadline attempts t)
        (λ t' left. attempt_loop-Looped fuel (attempts + 1) t' left (omega arith))
    where
      by_round :
          (p : Result (Round A) × Trace)
          → attempt c deadline attempts t ≡ p
          → Rounded c (attempts + 1) t p
          → ((t' : Trace)
              → 0 < fuel
              → Looped c fuel t' (attempt_loop c fuel deadline (attempts + 1) t'))
          → Looped c (suc fuel) t (attempt_loop c (suc fuel) deadline attempts t)
      by_round (raise x, t') e r rest = rw (loop_raise fuel attempts t x t' e) (record {
        bounded = omega arith;
        grows = omega arith;
        returns_last = λ a g. absurd (cc);
        repeats_safe = λ i lo hi. absurd (omega arith);
        no_runtime_error = λ g. r.2 (cc);
      })
      by_round (ok (done a), t') e r rest = rw (loop_done fuel attempts t a t' e) (record {
        bounded = omega arith;
        grows = omega arith;
        returns_last = λ b g. (t.calls, r.0, ground arith);
        repeats_safe = λ i lo hi. absurd (omega arith);
        no_runtime_error = λ g. cc;
      })
      by_round (ok again, t') e r rest =
          rw (loop_again fuel attempts t t' e)
            (Looped-again attempts fuel t t' _ r (rest t' (omega arith)))

module _ {A : Type 0} (c : Call A) (deadline : ℕ) where
  -- With a positive `max_attempts`, `execute` ends: it makes at most that many calls of the provider,
  -- and its loop is left by a return or an error of the program, not for want of fuel. If it returns a value, the last call
  -- returned it; and every call but the last failed with an error that the retry policy allows to be
  -- repeated.
  pub execute-Looped :
      (t : Trace)
      → 0 < c.policy.max_attempts
      → Looped c c.policy.max_attempts t (execute c deadline t)
  unfolding execute
  execute-Looped t positive =
      let l =
        attempt_loop-Looped c (c.clock t.readings + deadline) c.policy.max_attempts 0
          (record t { readings = t.readings + 1 }) positive (omega arith) in
      record {
        bounded = l.bounded;
        grows = l.grows;
        returns_last = l.returns_last;
        repeats_safe = l.repeats_safe;
        no_runtime_error = l.no_runtime_error;
      }

not_repeatable :
    (e : CapabilityHubError) (s : SideEffect) (key : Option String) (certainty : FailureCertainty)
    → (s ≡ SideEffect.irreversible) ⊎ ((s ≡ SideEffect.reversible_write) × (has_key key ≡ false))
    → (decide_retry e s key certainty).allowed ≢ true
unfolding decide_retry
not_repeatable e s key certainty unsafe allowed = ground arith

-- With a positive `max_attempts`, a write that cannot be taken back, or one that can be and carries
-- no idempotency key, is passed to the provider at most once, whatever the provider, the
-- clock and the classifier do.
pub execute_at_most_once :
    {A : Type 0} (c : Call A) (deadline : ℕ) (t : Trace)
    → 0 < c.policy.max_attempts
    → (c.side_effect ≡ SideEffect.irreversible)
      ⊎ ((c.side_effect ≡ SideEffect.reversible_write) × (has_key c.idempotency_key ≡ false))
    → (execute c deadline t).1.calls ≤ t.calls + 1
execute_at_most_once c deadline t positive unsafe =
    elim (dec_le (execute c deadline t).1.calls (t.calls + 1)) [
      | yes once ↦ once
      | no more ↦
          let (e, out, allowed) =
            (execute-Looped c deadline t positive).repeats_safe t.calls (omega arith)
              (omega arith) in
          absurd (
            not_repeatable e c.side_effect c.idempotency_key (certainty_of (c.classify e)) unsafe
              allowed)
    ]
