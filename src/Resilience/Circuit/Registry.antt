-- ===== src/Resilience/Circuit/Registry.antt =====
-- src/capabilityhub/resilience.py: the bounded table of circuits under every call.
use capabilityhub.Base.{
  ℕ, ◌≤◌, ◌<◌, String, ◌≡◌, ◌≢◌, refl, ◌⊎◌, inl, inr, Bool, true, false, none, some, [], ◌∷◌, arith,
  ltb, ◌==◌, ite, text_dec, length, length-append, Bool-cases, Option-cases, subst, sym, ◌∙◌,
}
use capabilityhub.Dict.{
  Dict, text_key, get, put, remove, IsDict, get-put_self, get-put_ne, get-remove_self,
  get-remove_ne, put-IsDict, remove-IsDict, get-append_last, append_last-IsDict, length-remove,
  length-put_new, length-put_known, get-put, get-remove,
}
use capabilityhub.Errors.{Exc}
use capabilityhub.Result.{ok, raise}
use capabilityhub.Resilience.Circuit.{
  CircuitPermit, CircuitEntry, CircuitBreaker, new_entry, create_breaker, circuit_capacity, is_idle,
  put_last, evictable, entry_of, acquire, acquire_entry, succeed_entry, fail_entry, record_success,
  record_failure, settle,
}
use capabilityhub.Resilience.Circuit.Transitions.{
  IsSound, new_entry-IsSound, acquire_entry-IsSound, succeed_entry-IsSound, fail_entry-IsSound,
}

module _ (k q : String) (e : CircuitEntry) (d : Dict String CircuitEntry) (h : IsDict d) where
  pub get-put_last : get q (put_last k e d) ≡ ite (text_dec k q) (some e) (get q d)
  get-put_last =
      ground
        (arith, get-append_last k q e (remove k d) (get-remove_self k d h), get-remove_ne k q d)

put_last-IsDict :
    (k : String) (e : CircuitEntry) (d : Dict String CircuitEntry)
    → IsDict d
    → IsDict (put_last k e d)
put_last-IsDict k e d h =
    append_last-IsDict k e (remove k d) (remove-IsDict k d h) (get-remove_self k d h)

length-put_last :
    (k : String) (e old : CircuitEntry) (d : Dict String CircuitEntry)
    → get k d ≡ some old
    → length (put_last k e d) ≡ length d
length-put_last k e old d known =
    omega (arith, length-append (remove k d) ((k, e) ∷ []), length-remove k d old known)

-- What `_entry` evicts is in the table, closed, and has no count of calls in flight.
evictable-idle :
    (d : Dict String CircuitEntry) (k : String)
    → IsDict d
    → evictable d ≡ some k
    → (e : CircuitEntry) × (get k d ≡ some e) × (is_idle e ≡ true)
unfolding evictable
evictable-idle [] k h g = absurd (cc)
evictable-idle ((j, e) ∷ d) k h g = elim (Bool-cases (is_idle e)) [
  | inl idle ↦ (e, ground arith, idle)
  | inr busy ↦
      let (x, there, idle) = evictable-idle d k h.1 (rw busy at g) in
      (x, ground (arith, there, h.0), idle)
]

pub record IsValid (b : CircuitBreaker) : Type 0 where
  pub threshold_pos : 0 < b.failure_threshold
  pub max_pos : 0 < b.max_entries
  pub dict : IsDict b.entries
  pub bounded : length b.entries ≤ b.max_entries
  pub sound :
      (k : String) (e : CircuitEntry) → get k b.entries ≡ some e → IsSound b.failure_threshold e

-- The outcome of `_entry`.
pub record Entered (key : String) (b b' : CircuitBreaker) (e : CircuitEntry) : Type 0 where
  pub result : entry_of key b ≡ (ok e, b')
  pub valid : IsValid b'
  pub here : get key b'.entries ≡ some e
  pub settings :
      (b'.failure_threshold ≡ b.failure_threshold) × (b'.recovery_timeout ≡ b.recovery_timeout)
  -- Every other circuit that is not idle is still there, as it was.
  pub others :
      (q : String) (x : CircuitEntry)
      → q ≢ key
      → is_idle x ≡ false
      → get q b.entries ≡ some x
      → get q b'.entries ≡ some x

module _ (key : String) (b : CircuitBreaker) (v : IsValid b) where
  entry_known :
      (e : CircuitEntry)
      → get key b.entries ≡ some e
      → Entered key b (record b { entries = put_last key e b.entries }) e
  unfolding entry_of
  entry_known e g = record {
    result = ground arith;
    valid = record {
      threshold_pos = v.threshold_pos;
      max_pos = v.max_pos;
      dict = put_last-IsDict key e b.entries v.dict;
      bounded = omega (arith, v.bounded, length-put_last key e e b.entries g);
      sound = λ k x i.
          ground (arith, get-put_last key k e b.entries v.dict, v.sound k x, v.sound key e g);
    };
    here = ground (arith, get-put_last key key e b.entries v.dict);
    settings = (refl, refl);
    others = λ q x ne busy i. ground (arith, get-put_last key q e b.entries v.dict);
  }

  -- A new circuit in a table of sound ones, which has room and keeps the others.
  entry_fresh :
      (d : Dict String CircuitEntry)
      → entry_of key b ≡ (ok new_entry, record b { entries = put key new_entry d })
      → IsDict d
      → get key d ≡ none
      → length d < b.max_entries
      → ((k : String) (x : CircuitEntry) → get k d ≡ some x → get k b.entries ≡ some x)
      → ((q : String) (x : CircuitEntry)
          → is_idle x ≡ false
          → get q b.entries ≡ some x
          → get q d ≡ some x)
      → Entered key b (record b { entries = put key new_entry d }) new_entry
  entry_fresh d result h absent room old kept = record {
    result = result;
    valid = record {
      threshold_pos = v.threshold_pos;
      max_pos = v.max_pos;
      dict = put-IsDict key new_entry d h;
      bounded = omega (arith, length-put_new key d new_entry absent);
      sound = λ k x i. elim (text_dec key k) [
        | yes same ↦
            subst (IsSound b.failure_threshold) (ground (arith, get-put key k new_entry d))
              (new_entry-IsSound b.failure_threshold v.threshold_pos)
        | no other ↦ v.sound k x (old k x (ground (arith, get-put key k new_entry d)))
      ];
    };
    here = get-put_self key new_entry d;
    settings = (refl, refl);
    others = λ q x ne busy i. ground (arith, get-put key q new_entry d, kept q x);
  }

  entry_room :
      get key b.entries ≡ none
      → length b.entries < b.max_entries
      → Entered key b (record b { entries = put key new_entry b.entries }) new_entry
  unfolding entry_of
  entry_room absent room =
      entry_fresh b.entries (ground arith) v.dict absent room (λ k x i. i) (λ q x busy i. i)

  entry_evicts :
      (old : String)
      → get key b.entries ≡ none
      → ltb (length b.entries) b.max_entries ≡ false
      → evictable b.entries ≡ some old
      → Entered key b (record b { entries = put key new_entry (remove old b.entries) }) new_entry
  unfolding entry_of
  entry_evicts old absent full chosen =
      let (x, there, idle) = evictable-idle b.entries old v.dict chosen in
      entry_fresh (remove old b.entries) (ground arith) (remove-IsDict old b.entries v.dict)
        (ground (arith, get-remove old key b.entries v.dict))
        (omega (arith, v.bounded, length-remove old b.entries x there))
        (λ k y i. ground (arith, get-remove old k b.entries v.dict))
        (λ q y busy i. ground (arith, get-remove old q b.entries v.dict))

  -- `_entry` finds or makes the circuit, or raises for want of room and changes nothing.
  pub entry_of_outcome :
      ((b' : CircuitBreaker) × (e : CircuitEntry) × Entered key b b' e)
      ⊎ (entry_of key b ≡ (raise circuit_capacity, b))
  unfolding entry_of
  entry_of_outcome = elim (Option-cases (get key b.entries)) [
    | inr (e, g) ↦ inl (_, e, entry_known e g)
    | inl absent ↦ elim (Bool-cases (ltb (length b.entries) b.max_entries)) [
      | inl room ↦ inl (_, new_entry, entry_room absent (ground arith))
      | inr full ↦ elim (Option-cases (evictable b.entries)) [
        | inl stuck ↦ inr (ground arith)
        | inr (old, chosen) ↦ inl (_, new_entry, entry_evicts old absent full chosen)
      ]
    ]
  ]

-- A sound entry in the place of the one that is there keeps the table valid.
put-IsValid :
    (key : String) (old e : CircuitEntry) (b : CircuitBreaker)
    → IsValid b
    → get key b.entries ≡ some old
    → IsSound b.failure_threshold e
    → IsValid (record b { entries = put key e b.entries })
put-IsValid key old e b v there s = record {
  threshold_pos = v.threshold_pos;
  max_pos = v.max_pos;
  dict = put-IsDict key e b.entries v.dict;
  bounded = omega (arith, v.bounded, length-put_known key b.entries e old there);
  sound = λ k x i. elim (text_dec key k) [
    | yes same ↦ subst (IsSound b.failure_threshold) (ground (arith, get-put key k e b.entries)) s
    | no other ↦ v.sound k x (ground (arith, get-put key k e b.entries))
  ];
}

put_last-IsValid :
    (key : String) (old e : CircuitEntry) (b : CircuitBreaker)
    → IsValid b
    → get key b.entries ≡ some old
    → IsSound b.failure_threshold e
    → IsValid (record b { entries = put_last key e b.entries })
put_last-IsValid key old e b v there s = record {
  threshold_pos = v.threshold_pos;
  max_pos = v.max_pos;
  dict = put_last-IsDict key e b.entries v.dict;
  bounded = omega (arith, v.bounded, length-put_last key e old b.entries there);
  sound = λ k x i. elim (text_dec key k) [
    | yes same ↦
        subst (IsSound b.failure_threshold) (ground (arith, get-put_last key k e b.entries v.dict))
          s
    | no other ↦ v.sound k x (ground (arith, get-put_last key k e b.entries v.dict))
  ];
}

-- What `acquire` does once `_entry` has found the circuit.
pub acquire_known :
    (key : String) (now : ℕ) (b b' : CircuitBreaker) (e : CircuitEntry)
    → key ≢ ""
    → Entered key b b' e
    → acquire key now b ≡ (
      (acquire_entry b.recovery_timeout now key e).1,
      record b' { entries = put key (acquire_entry b.recovery_timeout now key e).0 b'.entries },
    )
unfolding acquire
acquire_known key now b b' e named entered = ground (arith, entered.result, entered.settings)

acquire_refused :
    (key : String) (now : ℕ) (b : CircuitBreaker) (x : Exc)
    → entry_of key b ≡ (raise x, b)
    → (acquire key now b).1 ≡ b
unfolding acquire
acquire_refused key now b x refused = ground arith

acquire_unnamed : (now : ℕ) (b : CircuitBreaker) → (acquire "" now b).1 ≡ b
unfolding acquire
acquire_unnamed now b = ground arith

module _ (key : String) (now : ℕ) (b : CircuitBreaker) (v : IsValid b) where
  pub acquire-IsValid : IsValid (acquire key now b).1
  acquire-IsValid = elim (text_dec key "") [
    | yes empty ↦ rw empty (rw (acquire_unnamed now b) v)
    | no named ↦ elim (entry_of_outcome key b v) [
      | inr full ↦ rw (acquire_refused key now b circuit_capacity full) v
      | inl (b', e, entered) ↦ rw (acquire_known key now b b' e named entered) (
          put-IsValid key e (acquire_entry b.recovery_timeout now key e).0 b' entered.valid
            entered.here
            (acquire_entry-IsSound b'.failure_threshold now b.recovery_timeout key e
              (entered.valid.sound key e entered.here)))
    ]
  ]

  -- `acquire` of one key keeps the circuit of another that is not idle.
  pub acquire_keeps_busy :
      (q : String) (x : CircuitEntry)
      → q ≢ key
      → is_idle x ≡ false
      → get q b.entries ≡ some x
      → get q (acquire key now b).1.entries ≡ some x
  acquire_keeps_busy q x ne busy i = elim (text_dec key "") [
    | yes empty ↦ rw empty (rw (acquire_unnamed now b) i)
    | no named ↦ elim (entry_of_outcome key b v) [
      | inr full ↦ rw (acquire_refused key now b circuit_capacity full) i
      | inl (b', e, entered) ↦ rw (acquire_known key now b b' e named entered) (
          get-put_ne key q (acquire_entry b.recovery_timeout now key e).0 b'.entries ne
          ∙ entered.others q x ne busy i)
    ]
  ]

-- A permit that no longer counts changes nothing; another changes its own entry.
pub settle_outcome :
    (permit : CircuitPermit) (change : CircuitBreaker → CircuitEntry → CircuitEntry)
    (b : CircuitBreaker)
    → (settle permit change b ≡ b)
      ⊎ ((e : CircuitEntry) × (get permit.provider_key b.entries ≡ some e)
          × (e.generation ≡ permit.generation)
          × (settle permit change b
              ≡ record b { entries = put_last permit.provider_key (change b e) b.entries }))
settle_outcome permit change b = elim (Option-cases (get permit.provider_key b.entries)) [
  | inl gone ↦ inl (ground arith)
  | inr (e, there) ↦ elim (Bool-cases (e.generation == permit.generation)) [
    | inr stale ↦ inl (ground arith)
    | inl current ↦ inr (e, there, ground arith, ground arith)
  ]
]

settle-IsValid :
    (permit : CircuitPermit) (change : CircuitBreaker → CircuitEntry → CircuitEntry)
    (b : CircuitBreaker)
    → IsValid b
    → ((e : CircuitEntry)
        → IsSound b.failure_threshold e
        → IsSound b.failure_threshold (change b e))
    → IsValid (settle permit change b)
settle-IsValid permit change b v keeps = elim (settle_outcome permit change b) [
  | inl same ↦ subst IsValid (sym same) v
  | inr (e, there, current, changed) ↦ subst IsValid (sym changed) (
      put_last-IsValid permit.provider_key e (change b e) b v there
        (keeps e (v.sound permit.provider_key e there)))
]

-- The calls of a program, with any permits at all.
pub data Step (b : CircuitBreaker) : CircuitBreaker → Type 0 where
  acquires : (key : String) (now : ℕ) → Step b (acquire key now b).1
  succeeds : (permit : CircuitPermit) → Step b (record_success permit b)
  fails :
      (permit : CircuitPermit) (countable : Bool) (now : ℕ)
      → Step b (record_failure permit countable now b)

pub data Runs (a : CircuitBreaker) : CircuitBreaker → Type 0 where
  here : Runs a a
  next : {b c : CircuitBreaker} → Runs a b → Step b c → Runs a c

pub Step-IsValid : {b c : CircuitBreaker} → Step b c → IsValid b → IsValid c
unfolding record_success record_failure
Step-IsValid {b} (acquires key now) v = acquire-IsValid key now b v
Step-IsValid {b} (succeeds permit) v =
    settle-IsValid permit (λ b e. succeed_entry permit e) b v
      (λ e s. succeed_entry-IsSound b.failure_threshold 0 permit e v.threshold_pos s)
Step-IsValid {b} (fails permit countable now) v =
    settle-IsValid permit (λ b e. fail_entry b.failure_threshold now countable permit e) b v
      (λ e s. fail_entry-IsSound b.failure_threshold now countable permit e s)

created-IsValid :
    (threshold timeout max_entries : ℕ) (b : CircuitBreaker)
    → create_breaker threshold timeout max_entries ≡ ok b
    → IsValid b
unfolding create_breaker
created-IsValid threshold timeout max_entries b made = record {
  threshold_pos = ground arith;
  max_pos = ground arith;
  dict = ground arith;
  bounded = ground arith;
  sound = λ k e i. absurd (ground arith);
}

-- After any calls on a breaker that the constructor made, whatever permits they pass: no more
-- circuits than the maximum, no key twice, and every circuit sound. So a closed circuit has fewer
-- failures than the threshold, an open one knows since when, only a half-open one has a probe out,
-- and only a closed one has an in_flight count above zero.
pub Runs-IsValid :
    (threshold timeout max_entries : ℕ) {a b : CircuitBreaker}
    → create_breaker threshold timeout max_entries ≡ ok a
    → Runs a b
    → IsValid b
Runs-IsValid threshold timeout max_entries {a} made here =
    created-IsValid threshold timeout max_entries a made
Runs-IsValid threshold timeout max_entries made (next r s) =
    Step-IsValid s (Runs-IsValid threshold timeout max_entries made r)
