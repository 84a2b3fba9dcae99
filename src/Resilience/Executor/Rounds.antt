-- ===== src/Resilience/Executor/Rounds.antt =====
-- src/capabilityhub/resilience.py: what one round of `execute` does.
use capabilityhub.Base.{
  ℕ, ◌+◌, ◌≤◌, ◌<◌, String, ◌≡◌, ◌≢◌, refl, inl, inr, true, false, arith, leb, Bool-cases, ap,
}
use capabilityhub.Errors.{Exc, hub, runtime_error, CapabilityHubError}
use capabilityhub.Result.{Result, ok, raise, Result-cases}
use capabilityhub.Resilience.Retry.{RetryPolicy, decide_retry, backoff_seconds}
use capabilityhub.Resilience.Circuit.{
  CircuitBreaker, CircuitPermit, acquire, entry_of, acquire_entry,
}
use capabilityhub.Resilience.Executor.{
  Outcome, returned, failed, crashed, Trace, Round, done, again, certainty_of, deadline_error, Call,
  acquire_permit, call_provider, handle_error, handle, attempt,
}

-- The call that made the round go on was allowed to be repeated.
abbrev pub IsRepeatable : {A : Type 0} → Call A → CapabilityHubError → Type 0
IsRepeatable c error =
    (decide_retry error c.side_effect c.idempotency_key (certainty_of (c.classify error))).allowed
    ≡ true

-- What one round has done, by how it ended.
abbrev pub Rounded : {A : Type 0} → Call A → ℕ → Trace → Result (Round A) × Trace → Type 0
Rounded c attempts t (ok (done a), t') = (t'.calls ≡ t.calls + 1) × (c.outcome t.calls ≡ returned a)
Rounded c attempts t (ok again, t') =
    (t'.calls ≡ t.calls + 1)
    × (attempts < c.policy.max_attempts)
    × ((e : CapabilityHubError) × (c.outcome t.calls ≡ failed e) × IsRepeatable c e)
Rounded c attempts t (raise x, t') =
    (t.calls ≤ t'.calls) × (t'.calls ≤ t.calls + 1) × (x ≢ runtime_error)

pub hub-ne : (e : CapabilityHubError) → hub e ≢ runtime_error
hub-ne e h = cc

acquire_raises :
    (key : String) (now : ℕ) (b : CircuitBreaker) (x : Exc)
    → (acquire key now b).0 ≡ raise x
    → x ≢ runtime_error
unfolding acquire entry_of acquire_entry
acquire_raises key now b x e = ground arith

backoff_raises :
    (p : RetryPolicy) (n : ℕ) (x : Exc) → backoff_seconds p n ≡ raise x → x ≢ runtime_error
unfolding backoff_seconds
backoff_raises p n x e = ground arith

module _ {A : Type 0} (c : Call A) (deadline n : ℕ) (permit : CircuitPermit) (t t' : Trace)
    (called : t'.calls ≡ t.calls + 1) where
  handle_error-Rounded :
      (error : CapabilityHubError)
      → c.outcome t.calls ≡ failed error
      → Rounded c n t (handle_error c deadline n permit error t')
  unfolding handle_error
  handle_error-Rounded error out =
      let decision =
        decide_retry error c.side_effect c.idempotency_key (certainty_of (c.classify error)) in
      elim (Bool-cases decision.allowed) [
        | inr denied ↦ rw denied (omega arith, omega arith, hub-ne error)
        | inl allowed ↦ elim (Bool-cases (leb c.policy.max_attempts n)) [
          | inl spent ↦ rw (allowed, spent) (omega arith, omega arith, hub-ne _)
          | inr left ↦ elim (Result-cases (backoff_seconds c.policy n)) [
            | inr (x, bad) ↦
                rw (allowed, left, bad) (omega arith, omega arith, backoff_raises c.policy n x bad)
            | inl (delay, good) ↦
                elim (Bool-cases (leb deadline (c.clock (t'.readings + 1) + delay))) [
                  | inl late ↦ rw (allowed, left, good, late) (omega arith, omega arith, hub-ne _)
                  | inr early ↦
                      rw (allowed, left, good, early) (called, ground arith, (error, out, allowed))
                ]
          ]
        ]
      ]

  handle-Rounded :
      (o : Outcome A) → c.outcome t.calls ≡ o → Rounded c n t (handle c deadline n permit o t')
  unfolding handle
  handle-Rounded (returned a) out = (called, out)
  handle-Rounded (failed error) out = handle_error-Rounded error out
  handle-Rounded crashed out = (omega arith, omega arith, hub-ne _)

module _ {A : Type 0} (c : Call A) (deadline attempts : ℕ) (t : Trace) where
  abbrev now : ℕ
  now = c.clock (t.readings + 1)

  attempt_late :
      leb deadline (c.clock t.readings) ≡ true
      → attempt c deadline attempts t
        ≡ (raise deadline_error, record t { readings = t.readings + 1 })
  unfolding attempt
  attempt_late late = ground arith

  attempt_refused :
      (x : Exc) (b : CircuitBreaker)
      → leb deadline (c.clock t.readings) ≡ false
      → acquire c.provider_key now t.breaker ≡ (raise x, b)
      → attempt c deadline attempts t
        ≡ (raise x, record t { breaker = b; readings = t.readings + 1 + 1 })
  unfolding attempt acquire_permit
  attempt_refused x b early refused = ground arith

  attempt_granted :
      (permit : CircuitPermit) (b : CircuitBreaker)
      → leb deadline (c.clock t.readings) ≡ false
      → acquire c.provider_key now t.breaker ≡ (ok permit, b)
      → attempt c deadline attempts t
        ≡ handle c deadline
            (attempts + 1)
            permit
            (c.outcome t.calls)
            (record { breaker = b; readings = t.readings + 1 + 1; calls = t.calls + 1 })
  unfolding attempt acquire_permit call_provider
  attempt_granted permit b early granted = ground arith

  pub attempt-Rounded : Rounded c (attempts + 1) t (attempt c deadline attempts t)
  attempt-Rounded = elim (Bool-cases (leb deadline (c.clock t.readings))) [
    | inl late ↦ rw (attempt_late late) (omega arith, omega arith, hub-ne _)
    | inr early ↦ by_permit early (acquire c.provider_key now t.breaker) refl
  ]
    where
      by_permit :
          leb deadline (c.clock t.readings) ≡ false
          → (p : Result CircuitPermit × CircuitBreaker) → acquire c.provider_key now t.breaker ≡ p
          → Rounded c (attempts + 1) t (attempt c deadline attempts t)
      by_permit early (raise x, b) e = rw (attempt_refused x b early e) (
        omega arith,
        omega arith,
        acquire_raises c.provider_key now t.breaker x (ap (λ p. p.0) e),
      )
      by_permit early (ok permit, b) e =
          rw (attempt_granted permit b early e)
            (handle-Rounded c deadline (attempts + 1) permit t _ refl (c.outcome t.calls) refl)
