-- ===== src/Resilience/Circuit.antt =====
-- src/capabilityhub/resilience.py: `CircuitBreaker`. A time is a number of units; each method is
-- given the clock readings that it makes. The `OrderedDict` is the dict in insertion order.
pub mod Transitions
pub mod Registry
pub mod Outstanding
use capabilityhub.Base.{
  ℕ, ◌+◌, ◌-◌, String, Bool, true, false, ◌&&◌, ◌||◌, not, Option, none, some, List, [], ◌∷◌, ◌++◌,
  ltb, leb, ◌==◌, if◌then◌else◌, ite, text_dec, length,
}
use capabilityhub.Dict.{Dict, text_key, get, put, remove}
use capabilityhub.Errors.{Exc, hub_error, provider, value_error}
use capabilityhub.Result.{Result, ok, raise, raise_if}
use capabilityhub.Exec.{Exec, ◌>>=◌, ◌>>◌, pure, throw, lift, gets, modify}

pub data CircuitState : Type 0 where
  closed open_circuit half_open : CircuitState

pub record CircuitPermit : Type 0 where
  pub provider_key : String
  pub generation : ℕ
  pub half_open_probe : Bool

pub record CircuitEntry : Type 0 where
  pub state : CircuitState
  pub failures : ℕ
  pub opened_at : Option ℕ
  pub probe_in_flight : Bool
  pub in_flight : ℕ
  pub generation : ℕ

pub record CircuitSnapshot : Type 0 where
  pub state : CircuitState
  pub consecutive_failures : ℕ

pub record CircuitBreaker : Type 0 where
  pub failure_threshold : ℕ
  pub recovery_timeout : ℕ
  pub max_entries : ℕ
  pub entries : Dict String CircuitEntry

abbrev pub new_entry : CircuitEntry
new_entry = record {
  state = closed;
  failures = 0;
  opened_at = none;
  probe_in_flight = false;
  in_flight = 0;
  generation = 0;
}

abbrev pub is_closed : CircuitState → Bool
is_closed closed = true
is_closed _ = false

-- `CircuitBreaker.__init__`
unfoldable pub create_breaker : ℕ → ℕ → ℕ → Result CircuitBreaker
create_breaker failure_threshold recovery_timeout max_entries =
    if ltb failure_threshold 1
    then raise value_error
    else if ltb max_entries 1
    then raise value_error
    else ok (record {
      failure_threshold = failure_threshold;
      recovery_timeout = recovery_timeout;
      max_entries = max_entries;
      entries = [];
    })

-- `move_to_end`, or the insertion of a new key.
abbrev pub put_last : String → CircuitEntry → Dict String CircuitEntry → Dict String CircuitEntry
put_last key e d = remove key d ++ (key, e) ∷ []

-- An entry that may be evicted.
abbrev pub is_idle : CircuitEntry → Bool
is_idle e = is_closed e.state && e.in_flight == 0

-- The first idle key, in order of last use.
unfoldable pub evictable : Dict String CircuitEntry → Option String
evictable [] = none
evictable ((key, e) ∷ d) = let rest = evictable d in if is_idle e then some key else rest

abbrev pub circuit_open : Exc
circuit_open = hub_error "provider_circuit_open" provider

abbrev pub circuit_capacity : Exc
circuit_capacity = hub_error "provider_circuit_capacity" provider

-- `_entry`: the entry of a key, which becomes the last one used.
unfoldable pub entry_of : String → Exec CircuitBreaker CircuitEntry
entry_of key b = elim (get key b.entries) [
  | some e ↦ (ok e, record b { entries = put_last key e b.entries })
  | none ↦
      if ltb (length b.entries) b.max_entries
      then (ok new_entry, record b { entries = put key new_entry b.entries })
      else elim (evictable b.entries) [
        | none ↦ (raise circuit_capacity, b)
        | some old ↦ (ok new_entry, record b { entries = put key new_entry (remove old b.entries) })
      ]
]

-- The entry object in the dict has changed.
abbrev pub write : String → CircuitEntry → Exec CircuitBreaker (Unit {0})
write key e b = (ok tt, record b { entries = put key e b.entries })

-- `acquire` on the entry: the entry as the method leaves it, and the permit or the refusal.
-- `now - opened_at < timeout` is written with the sum, since the clock may read less than before.
unfoldable pub acquire_entry : ℕ → ℕ → String → CircuitEntry → CircuitEntry × Result CircuitPermit
acquire_entry recovery_timeout now key e = elim e.state [
  | closed ↦ (
    record e { in_flight = e.in_flight + 1 },
    ok (record { provider_key = key; generation = e.generation; half_open_probe = false }),
  )
  | open_circuit ↦
      let opened_at : ℕ = elim e.opened_at [ none ↦ now | some t ↦ t ] in
      if ltb now (opened_at + recovery_timeout) then (e, raise circuit_open) else (
        record e { state = half_open; probe_in_flight = true; generation = e.generation + 1 },
        ok (record { provider_key = key; generation = e.generation + 1; half_open_probe = true }),
      )
  | half_open ↦ if e.probe_in_flight then (e, raise circuit_open) else (
    record e { probe_in_flight = true },
    ok (record { provider_key = key; generation = e.generation; half_open_probe = true }),
  )
]

-- `acquire`
unfoldable pub acquire : String → ℕ → Exec CircuitBreaker CircuitPermit
acquire key now = do
  lift (raise_if (ite (text_dec key "") true false) value_error)
  e ← entry_of key
  timeout ← gets (λ b. b.recovery_timeout)
  write key (acquire_entry timeout now key e).0
  lift (acquire_entry timeout now key e).1

-- `_open`, with the clock reading that it makes.
unfoldable pub open_entry : ℕ → CircuitEntry → CircuitEntry
open_entry now e = record e {
  state = open_circuit;
  opened_at = some now;
  probe_in_flight = false;
  in_flight = 0;
  generation = e.generation + 1;
}

-- `record_success` on the entry. Truncated subtraction is `max(0, in_flight - 1)`.
unfoldable pub succeed_entry : CircuitPermit → CircuitEntry → CircuitEntry
succeed_entry permit e = record {
  state = closed;
  failures = 0;
  opened_at = none;
  probe_in_flight = false;
  in_flight = if permit.half_open_probe then e.in_flight else e.in_flight - 1;
  generation = if is_closed e.state then e.generation else e.generation + 1;
}

-- `record_failure` on the entry.
unfoldable pub fail_entry : ℕ → ℕ → Bool → CircuitPermit → CircuitEntry → CircuitEntry
fail_entry threshold now countable permit e =
    let released = record e { in_flight = e.in_flight - 1 } in
    let counted = record released { failures = e.failures + 1 } in
    if permit.half_open_probe
    then open_entry now e
    else if not countable
    then released
    else if leb threshold (e.failures + 1)
    then open_entry now counted
    else counted

-- What both record methods do around it: a permit of another generation is ignored.
abbrev pub settle :
    CircuitPermit → (CircuitBreaker → CircuitEntry → CircuitEntry) → CircuitBreaker → CircuitBreaker
settle permit change b = elim (get permit.provider_key b.entries) [
  | none ↦ b
  | some e ↦
      if e.generation == permit.generation
      then record b { entries = put_last permit.provider_key (change b e) b.entries }
      else b
]

-- `record_success`
unfoldable pub record_success : CircuitPermit → CircuitBreaker → CircuitBreaker
record_success permit = settle permit (λ b e. succeed_entry permit e)

-- `record_failure`; `now` is the reading of a call of `_open`.
unfoldable pub record_failure : CircuitPermit → Bool → ℕ → CircuitBreaker → CircuitBreaker
record_failure permit countable now =
    settle permit (λ b e. fail_entry b.failure_threshold now countable permit e)

-- `snapshot`
unfoldable pub circuit_snapshot : String → CircuitBreaker → Option CircuitSnapshot
circuit_snapshot key b = elim (get key b.entries) [
  | none ↦ none
  | some e ↦ some (record { state = e.state; consecutive_failures = e.failures })
]
