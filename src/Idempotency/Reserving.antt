-- ===== src/Idempotency/Reserving.antt =====
-- src/capabilityhub/idempotency.py: that a slot which is reserved is not reserved again.
use capabilityhub.Base.{
  ℕ, ◌+◌, ◌≤◌, ◌<◌, String, ◌≡◌, ◌≢◌, refl, sym, ap, ◌∙◌, subst, inl, inr, true, false, Option,
  none, some, arith, Bool-cases, Option-cases, text_dec,
}
use capabilityhub.Dict.{text_key, get, remove, get-put_self, get-put_ne, get-remove_ne}
use capabilityhub.Dict.Rows.{alter, map_values, get-alter_ne, get-alter_self, get-map_values-some}
use capabilityhub.Models.Manifests.{ExecutionResult}
use capabilityhub.Idempotency.{
  IdempotencyStatus, complete_status, IdempotencySlot, IdempotencyRecord, Row, Table, Settings,
  Library, is_complete, settle_row, doubt_row, is_stale, reserved_row, record_of, reserve,
  stored_result, complete, uncertain,
}

-- The slot has a row, and if that is complete, it was completed at the time or after it.
pub Held : String → ℕ → Table → Type 0
Held key since d =
    (row : Row) × (get key d ≡ some row) × (is_complete row.status ≡ true → since ≤ row.updated_at)

settle_row-since :
    (status : IdempotencyStatus) (result : Option String) (now since : ℕ) (row : Row)
    → since ≤ now
    → (is_complete row.status ≡ true → since ≤ row.updated_at)
    → is_complete (settle_row status result now row).status ≡ true
    → since ≤ (settle_row status result now row).updated_at
unfolding settle_row
settle_row-since status result now since row late h = ground arith

-- An update of one row keeps what is held.
alter-Held :
    (key k : String) (since : ℕ) (f : Row → Row) (d : Table)
    → ((row : Row)
        → (is_complete row.status ≡ true → since ≤ row.updated_at)
        → is_complete (f row).status ≡ true
        → since ≤ (f row).updated_at)
    → Held key since d
    → Held key since (alter k f d)
unfolding Held
alter-Held key k since f d keeps (row, there, h) = elim (text_dec k key) [
  | yes same ↦ (
    f row,
    subst (λ x. get key (alter x f d) ≡ some (f row)) (sym same) (get-alter_self key f d row there),
    keeps row h,
  )
  | no other ↦ (row, get-alter_ne k key f d (λ e. other (sym e)) ∙ there, h)
]

module _ {Json : Type 0} (lib : Library Json) (s : Settings) where
  -- A row that is not stale is returned, and nothing is written.
  pub reserve_known :
      (slot : IdempotencySlot) (digest : String) (checked inserted : ℕ) (d : Table) (row : Row)
      → get (lib.slot_digest slot) d ≡ some row
      → is_stale s checked row ≡ false
      → reserve lib s slot digest checked inserted d ≡ (some (record_of lib s row), d)
  unfolding reserve
  reserve_known slot digest checked inserted d row there fresh = rw (there, fresh, reserve) refl

  reserve_other :
      (key : String) (slot : IdempotencySlot) (digest : String) (checked inserted : ℕ) (d : Table)
      → key ≢ lib.slot_digest slot
      → get key (reserve lib s slot digest checked inserted d).1 ≡ get key d
  unfolding reserve
  reserve_other key slot digest checked inserted d other =
      let mine = lib.slot_digest slot in
      let new = reserved_row digest inserted in
      elim (Option-cases (get mine d)) [
        | inl gone ↦ rw (gone, reserve) (get-put_ne mine key new d other)
        | inr (row, there) ↦ elim (Bool-cases (is_stale s checked row)) [
          | inl old ↦
              rw (there, old, reserve)
                (get-put_ne mine key new (remove mine d) other ∙ get-remove_ne mine key d other)
          | inr fresh ↦ rw (there, fresh, reserve) refl
        ]
      ]

  not_stale :
      (since checked : ℕ) (row : Row)
      → checked < since + s.result_ttl_seconds
      → (is_complete row.status ≡ true → since ≤ row.updated_at)
      → is_stale s checked row ≡ false
  not_stale since checked row early h = ground arith

  Held-reserve :
      (since : ℕ) (slot : IdempotencySlot) (digest : String) (checked inserted : ℕ) (d : Table)
      → checked < since + s.result_ttl_seconds
      → Held (lib.slot_digest slot) since d
      → (r : IdempotencyRecord Json) × ((reserve lib s slot digest checked inserted d).0 ≡ some r)
  unfolding Held
  Held-reserve since slot digest checked inserted d early (row, there, h) = (
    record_of lib s row,
    ap (λ p. p.0)
        (reserve_known slot digest checked inserted d row there
          (not_stale since checked row early h)),
  )

  reserve-Held :
      (key : String) (since : ℕ) (slot : IdempotencySlot) (digest : String) (checked inserted : ℕ)
      (d : Table)
      → checked < since + s.result_ttl_seconds
      → Held key since d
      → Held key since (reserve lib s slot digest checked inserted d).1
  unfolding Held
  reserve-Held key since slot digest checked inserted d early (row, there, h) =
      elim (text_dec (lib.slot_digest slot) key) [
        | yes same ↦ (
          row,
          ap (λ p. get key p.1)
                (reserve_known slot digest checked inserted d row (ap (λ x. get x d) same ∙ there)
                  (not_stale since checked row early h))
              ∙ there,
          h,
        )
        | no other ↦
            (row, reserve_other key slot digest checked inserted d (λ e. other (sym e)) ∙ there, h)
      ]

  -- The row that a reservation has written.
  reserved-Held :
      (slot : IdempotencySlot) (digest : String) (checked inserted since : ℕ) (d : Table)
      → (reserve lib s slot digest checked inserted d).0 ≡ none
      → Held (lib.slot_digest slot) since (reserve lib s slot digest checked inserted d).1
  unfolding Held reserve
  reserved-Held slot digest checked inserted since d free =
      let mine = lib.slot_digest slot in
      let new = reserved_row digest inserted in
      elim (Option-cases (get mine d)) [
        | inl gone ↦ (new, rw (gone, reserve) (get-put_self mine new d), λ done. absurd (cc))
        | inr (row, there) ↦ elim (Bool-cases (is_stale s checked row)) [
          | inl old ↦ (
            new,
            rw (there, old, reserve) (get-put_self mine new (remove mine d)),
            λ done. absurd (cc),
          )
          | inr fresh ↦
              let known : some (record_of lib s row) ≡ none =
                sym (ap (λ p. p.0) (reserve_known slot digest checked inserted d row there fresh))
                ∙ free in
              absurd (cc known)
        ]
      ]

  -- A call on the store while the time to live of what was begun at the time has not passed: whatever
  -- is completed is completed at the time or after it.
  pub data Call (since : ℕ) (d : Table) : Table → Type 0 where
    reserves :
        (slot : IdempotencySlot) (digest : String) (checked inserted : ℕ)
        → checked < since + s.result_ttl_seconds
        → Call since d (reserve lib s slot digest checked inserted d).1
    completes :
        (slot : IdempotencySlot) (result : ExecutionResult Json) (now : ℕ)
        → since ≤ now
        → Call since d (complete lib s slot result now d)
    doubts : (slot : IdempotencySlot) (now : ℕ) → Call since d (uncertain lib s slot now d)
    recovers : (now : ℕ) → Call since d (map_values (doubt_row now) d)

  pub data Calls (since : ℕ) (a : Table) : Table → Type 0 where
    here : Calls since a a
    next : {b c : Table} → Calls since a b → Call since b c → Calls since a c

  doubt_row-since :
      (now since : ℕ) (row : Row)
      → (is_complete row.status ≡ true → since ≤ row.updated_at)
      → is_complete (doubt_row now row).status ≡ true
      → since ≤ (doubt_row now row).updated_at
  unfolding doubt_row settle_row
  doubt_row-since now since row h = ground arith

  Call-Held :
      (key : String) (since : ℕ) {d e : Table}
      → Call since d e
      → Held key since d
      → Held key since e
  unfolding complete uncertain Held
  Call-Held key since {d} (reserves slot digest checked inserted early) h =
      reserve-Held key since slot digest checked inserted d early h
  Call-Held key since {d} (completes slot result now late) h =
      alter-Held key (lib.slot_digest slot) since _ d
        (λ row. settle_row-since complete_status (stored_result lib s result) now since row late) h
  Call-Held key since {d} (doubts slot now) h =
      alter-Held key (lib.slot_digest slot) since _ d (doubt_row-since now since) h
  Call-Held key since {d} (recovers now) (row, there, h) = (
    doubt_row now row,
    get-map_values-some (doubt_row now) d key row there,
    doubt_row-since now since row h,
  )

  Calls-Held :
      (key : String) (since : ℕ) {d e : Table}
      → Calls since d e
      → Held key since d
      → Held key since e
  Calls-Held key since here h = h
  Calls-Held key since (next run call) h = Call-Held key since call (Calls-Held key since run h)

  -- Where reserve gave a slot to one caller, it gives it to no other: after any calls that complete
  -- nothing before a given time, every reserve that reads the clock before the time to live has passed
  -- since then returns a record.
  pub reserve_once :
      (since : ℕ) (slot : IdempotencySlot) (digest : String) (checked inserted : ℕ) (d : Table)
      → (reserve lib s slot digest checked inserted d).0 ≡ none
      → (e : Table) → Calls since (reserve lib s slot digest checked inserted d).1 e
      → (other : String) (later written : ℕ) → later < since + s.result_ttl_seconds
      → (r : IdempotencyRecord Json) × ((reserve lib s slot other later written e).0 ≡ some r)
  reserve_once since slot digest checked inserted d free e run other later written early =
      Held-reserve since slot other later written e early (
        Calls-Held (lib.slot_digest slot) since run
          (reserved-Held slot digest checked inserted since d free))
