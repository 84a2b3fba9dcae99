-- ===== src/Resilience/Circuit/Transitions.antt =====
-- src/capabilityhub/resilience.py: what one call does to one entry of the circuit breaker.
use capabilityhub.Base.{
  ℕ, ◌+◌, ◌≤◌, ◌<◌, String, ◌≡◌, ◌≢◌, refl, ◌⊎◌, inl, inr, Bool, true, false, none, some, arith,
  zero, suc, ◌∙◌,
}
use capabilityhub.Errors.{Exc}
use capabilityhub.Result.{ok, raise}
use capabilityhub.Resilience.Circuit.{
  CircuitState, closed, open_circuit, half_open, CircuitPermit, CircuitEntry, new_entry,
  circuit_open, acquire_entry, open_entry, succeed_entry, fail_entry,
}

-- What holds of an entry between two calls.
pub record IsSound (threshold : ℕ) (e : CircuitEntry) : Type 0 where
  pub closed_below : e.state ≡ closed → e.failures < threshold
  pub closed_no_probe : e.state ≡ closed → e.probe_in_flight ≡ false
  pub open_since : e.state ≡ open_circuit → e.opened_at ≢ none
  pub open_no_probe : e.state ≡ open_circuit → e.probe_in_flight ≡ false
  pub half_open_probes : e.state ≡ half_open → e.probe_in_flight ≡ true
  pub only_closed_counts : e.state ≢ closed → e.in_flight ≡ 0

state-cases : (s : CircuitState) → (s ≡ closed) ⊎ ((s ≡ open_circuit) ⊎ (s ≡ half_open))
state-cases closed = inl refl
state-cases open_circuit = inr (inl refl)
state-cases half_open = inr (inr refl)

pub new_entry-IsSound : (threshold : ℕ) → 0 < threshold → IsSound threshold new_entry
new_entry-IsSound threshold h = ground arith

module _ (threshold now : ℕ) where
  pub acquire_entry-IsSound :
      (timeout : ℕ) (key : String) (e : CircuitEntry)
      → IsSound threshold e
      → IsSound threshold (acquire_entry timeout now key e).0
  unfolding acquire_entry
  acquire_entry-IsSound timeout key e s = ground arith

  pub succeed_entry-IsSound :
      (permit : CircuitPermit) (e : CircuitEntry)
      → 0 < threshold
      → IsSound threshold e
      → IsSound threshold (succeed_entry permit e)
  unfolding succeed_entry
  succeed_entry-IsSound permit e h s = ground arith

  pub fail_entry-IsSound :
      (countable : Bool) (permit : CircuitPermit) (e : CircuitEntry)
      → IsSound threshold e
      → IsSound threshold (fail_entry threshold now countable permit e)
  unfolding fail_entry open_entry
  fail_entry-IsSound countable permit e s = ground arith

-- A sound entry grants a permit in two cases only: it is closed, and the permit is an ordinary one;
-- or it is open and the recovery timeout has passed since it opened, and the permit is the probe.
pub acquire_entry_grants :
    (threshold timeout now : ℕ) (key : String) (e : CircuitEntry) (p : CircuitPermit)
    → IsSound threshold e
    → (acquire_entry timeout now key e).1 ≡ ok p
    → ((e.state ≡ closed) × (p.half_open_probe ≡ false))
      ⊎ ((e.state ≡ open_circuit)
          × (p.half_open_probe ≡ true)
          × ((t : ℕ) → e.opened_at ≡ some t → t + timeout ≤ now))
unfolding acquire_entry
acquire_entry_grants threshold timeout now key e p s g = elim (state-cases e.state) [
  | inl c ↦ inl (c, ground arith)
  | inr (inl o) ↦ inr (o, ground arith, λ t at. ground arith)
  | inr (inr h) ↦ absurd (ground arith)
]

-- A refusal changes nothing in the entry.
pub acquire_entry_refuses :
    (timeout now : ℕ) (key : String) (e : CircuitEntry) (x : Exc)
    → (acquire_entry timeout now key e).1 ≡ raise x
    → ((acquire_entry timeout now key e).0 ≡ e) × (x ≡ circuit_open)
unfolding acquire_entry
acquire_entry_refuses timeout now key e x g = ground arith

-- A transition has a generation of its own: where a call changes the state of an entry, the
-- generation grows by one, so that permits of the state before no longer count.
pub transitions_bump :
    (threshold timeout now : ℕ) (countable : Bool) (key : String) (permit : CircuitPermit)
    (e : CircuitEntry)
    → ((acquire_entry timeout now key e).0.state ≢ e.state
        → (acquire_entry timeout now key e).0.generation ≡ e.generation + 1)
      × ((succeed_entry permit e).state ≢ e.state
          → (succeed_entry permit e).generation ≡ e.generation + 1)
      × ((fail_entry threshold now countable permit e).state ≢ e.state
          → (fail_entry threshold now countable permit e).generation ≡ e.generation + 1)
unfolding acquire_entry succeed_entry fail_entry open_entry
transitions_bump threshold timeout now countable key permit e =
    (λ c. ground arith, λ c. ground arith, λ c. ground arith)

-- `k` countable failures in a row of ordinary permits.
abbrev pub fail_times : ℕ → ℕ → CircuitPermit → ℕ → CircuitEntry → CircuitEntry
fail_times threshold now permit zero e = e
fail_times threshold now permit (suc k) e =
    fail_times threshold now permit k (fail_entry threshold now true permit e)

fail_below :
    (threshold now : ℕ) (permit : CircuitPermit) (e : CircuitEntry)
    → permit.half_open_probe ≡ false
    → e.failures + 1 < threshold
    → ((fail_entry threshold now true permit e).state ≡ e.state)
      × ((fail_entry threshold now true permit e).failures ≡ e.failures + 1)
unfolding fail_entry
fail_below threshold now permit e ordinary below = ground arith

fail_at :
    (threshold now : ℕ) (permit : CircuitPermit) (e : CircuitEntry)
    → permit.half_open_probe ≡ false
    → e.failures + 1 ≡ threshold
    → (fail_entry threshold now true permit e).state ≡ open_circuit
unfolding fail_entry open_entry
fail_at threshold now permit e ordinary full = ground arith

-- A closed entry counts the failures of ordinary permits without opening while they stay below the
-- threshold, and the failure that reaches the threshold opens it.
pub fail_times_trips :
    (threshold now k : ℕ) (permit : CircuitPermit) (e : CircuitEntry)
    → permit.half_open_probe ≡ false
    → e.state ≡ closed
    → (e.failures + k < threshold
        → ((fail_times threshold now permit k e).state ≡ closed)
          × ((fail_times threshold now permit k e).failures ≡ e.failures + k))
      × (e.failures + suc k ≡ threshold
          → (fail_times threshold now permit (suc k) e).state ≡ open_circuit)
fail_times_trips threshold now zero permit e ordinary c =
    (λ below. (c, omega arith), λ full. fail_at threshold now permit e ordinary (omega arith))
fail_times_trips threshold now (suc k) permit e ordinary c = (
  λ below.
      let (same, more) = fail_below threshold now permit e ordinary (omega arith) in
      let rest =
        (fail_times_trips threshold now k permit (fail_entry threshold now true permit e) ordinary
            (same ∙ c)).0
          (omega arith) in
      (rest.0, omega (arith, rest.1)),
  λ full.
      let (same, more) = fail_below threshold now permit e ordinary (omega arith) in
      (fail_times_trips threshold now k permit (fail_entry threshold now true permit e) ordinary
          (same ∙ c)).1
        (omega arith),
)
