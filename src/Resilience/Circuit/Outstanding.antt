-- ===== src/Resilience/Circuit/Outstanding.antt =====
-- src/capabilityhub/resilience.py: the circuit of a permit while other providers are called.
use capabilityhub.Base.{
  ℕ, String, ◌≡◌, ◌≢◌, sym, ap, ◌∙◌, inl, inr, Bool, false, some, arith, text_dec,
}
use capabilityhub.Dict.{text_key, get, get-put_self}
use capabilityhub.Result.{ok, raise}
use capabilityhub.Resilience.Circuit.{
  CircuitPermit, CircuitEntry, CircuitBreaker, is_idle, acquire, acquire_entry, succeed_entry,
  fail_entry, record_success, record_failure, settle, circuit_capacity, entry_of,
}
use capabilityhub.Resilience.Circuit.Registry.{
  IsValid, Step, acquires, succeeds, fails, acquire-IsValid, acquire_known, acquire_keeps_busy,
  entry_of_outcome, settle_outcome, get-put_last, Step-IsValid,
}

-- A call for another provider, with any permit of it.
pub data AwayStep (q : String) (b : CircuitBreaker) : CircuitBreaker → Type 0 where
  acquires_other : (key : String) (now : ℕ) → q ≢ key → AwayStep q b (acquire key now b).1
  succeeds_other :
      (permit : CircuitPermit) → q ≢ permit.provider_key → AwayStep q b (record_success permit b)
  fails_other :
      (permit : CircuitPermit) (countable : Bool) (now : ℕ)
      → q ≢ permit.provider_key
      → AwayStep q b (record_failure permit countable now b)

pub data Away (q : String) (a : CircuitBreaker) : CircuitBreaker → Type 0 where
  stays : Away q a a
  goes : {b c : CircuitBreaker} → Away q a b → AwayStep q b c → Away q a c

AwayStep-Step : {q : String} {b c : CircuitBreaker} → AwayStep q b c → Step b c
AwayStep-Step (acquires_other key now _) = acquires key now
AwayStep-Step (succeeds_other permit _) = succeeds permit
AwayStep-Step (fails_other permit countable now _) = fails permit countable now

-- What a settled permit of another provider leaves.
settle_other :
    (q : String) (permit : CircuitPermit) (change : CircuitBreaker → CircuitEntry → CircuitEntry)
    (b : CircuitBreaker)
    → IsValid b
    → q ≢ permit.provider_key
    → get q (settle permit change b).entries ≡ get q b.entries
settle_other q permit change b v apart = elim (settle_outcome permit change b) [
  | inl same ↦ ap (λ x. get q x.entries) same
  | inr (e, there, current, changed) ↦
      ap (λ x. get q x.entries) changed
      ∙ get-put_last permit.provider_key q (change b e) b.entries v.dict
      ∙ ground arith
]

AwayStep-keeps :
    {q : String} {b c : CircuitBreaker} (x : CircuitEntry)
    → AwayStep q b c
    → IsValid b
    → is_idle x ≡ false
    → get q b.entries ≡ some x
    → get q c.entries ≡ some x
unfolding record_success record_failure
AwayStep-keeps {q} {b} x (acquires_other key now apart) v busy i =
    acquire_keeps_busy key now b v q x apart busy i
AwayStep-keeps {q} {b} x (succeeds_other permit apart) v busy i =
    settle_other q permit (λ b e. succeed_entry permit e) b v apart ∙ i
AwayStep-keeps {q} {b} x (fails_other permit countable now apart) v busy i =
    settle_other q permit (λ b e. fail_entry b.failure_threshold now countable permit e) b v apart
    ∙ i

Away-keeps :
    {q : String} {b c : CircuitBreaker} (x : CircuitEntry)
    → Away q b c
    → IsValid b
    → is_idle x ≡ false
    → get q b.entries ≡ some x
    → IsValid c × (get q c.entries ≡ some x)
Away-keeps x stays v busy i = (v, i)
Away-keeps x (goes away step) v busy i =
    let (w, there) = Away-keeps x away v busy i in
    (Step-IsValid (AwayStep-Step step) w, AwayStep-keeps x step w busy there)

-- The entry of a granted permit.
granted_entry :
    (timeout now : ℕ) (key : String) (e : CircuitEntry) (permit : CircuitPermit)
    → (acquire_entry timeout now key e).1 ≡ ok permit
    → (is_idle (acquire_entry timeout now key e).0 ≡ false)
      × ((acquire_entry timeout now key e).0.generation ≡ permit.generation)
      × (permit.provider_key ≡ key)
unfolding acquire_entry
granted_entry timeout now key e permit h = (ground arith, ground arith, ground arith)

no_permit_unnamed :
    (key : String) (now : ℕ) (b : CircuitBreaker) (permit : CircuitPermit)
    → key ≡ ""
    → ¬ ((acquire key now b).0 ≡ ok permit)
unfolding acquire
no_permit_unnamed key now b permit unnamed h = ground arith

no_permit_refused :
    (key : String) (now : ℕ) (b : CircuitBreaker) (permit : CircuitPermit)
    → entry_of key b ≡ (raise circuit_capacity, b)
    → ¬ ((acquire key now b).0 ≡ ok permit)
unfolding acquire
no_permit_refused key now b permit full h = ground arith

-- What acquire leaves where it returns a permit.
granted :
    (key : String) (now : ℕ) (b : CircuitBreaker) (permit : CircuitPermit)
    → IsValid b
    → (acquire key now b).0 ≡ ok permit
    → (e : CircuitEntry) × (get key (acquire key now b).1.entries ≡ some e)
      × (is_idle e ≡ false)
      × (e.generation ≡ permit.generation)
      × (permit.provider_key ≡ key)
granted key now b permit v h = elim (text_dec key "") [
  | yes unnamed ↦ absurd (no_permit_unnamed key now b permit unnamed h)
  | no named ↦ elim (entry_of_outcome key b v) [
    | inr full ↦ absurd (no_permit_refused key now b permit full h)
    | inl (b', e, entered) ↦
        let known = acquire_known key now b b' e named entered in
        let after = (acquire_entry b.recovery_timeout now key e).0 in
        let (busy, same, mine) =
          granted_entry b.recovery_timeout now key e permit (sym (ap (λ p. p.0) known) ∙ h) in
        (
          after,
          ap (λ p. get key p.1.entries) known ∙ get-put_self key after b'.entries,
          busy,
          same,
          mine,
        )
  ]
]

-- On a valid breaker, from an acquire that returned a permit on, any calls for other providers, with
-- any permits of theirs and refused ones included, also where they evict circuits to make room, leave
-- the circuit of the provider as that acquire left it, with the generation of the permit; and the
-- permit names the provider.
pub acquire-Away :
    (key : String) (now : ℕ) (b : CircuitBreaker) (permit : CircuitPermit) {c : CircuitBreaker}
    → IsValid b
    → (acquire key now b).0 ≡ ok permit
    → Away key (acquire key now b).1 c
    → (e : CircuitEntry) × (get key (acquire key now b).1.entries ≡ some e)
      × (get key c.entries ≡ some e)
      × (e.generation ≡ permit.generation)
      × (permit.provider_key ≡ key)
acquire-Away key now b permit v h away =
    let (e, there, busy, same, mine) = granted key now b permit v h in
    let (w, kept) = Away-keeps e away (acquire-IsValid key now b v) busy there in
    (e, there, kept, same, mine)
