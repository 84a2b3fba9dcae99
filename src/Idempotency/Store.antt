-- ===== src/Idempotency/Store.antt =====
-- src/capabilityhub/idempotency.py: `SqliteIdempotencyStore`. The table is a dictionary by the digest of
-- a slot; each SQL statement is what it does to the table. A time is a count of seconds; each reading of
-- a clock is an argument. The digest of a slot, the JSON library and the length of a text in bytes are
-- parameters.
use capabilityhub.Base.{
  ℕ, zero, suc, ◌+◌, String, Bool, true, false, ◌&&◌, ◌||◌, not, Option, none, some, ltb, leb,
  if◌then◌else◌, ite, text_dec,
}
use capabilityhub.Dict.{Dict, text_key, get, put, remove}
use capabilityhub.Dict.Rows.{alter, map_values}
use capabilityhub.Errors.{value_error}
use capabilityhub.Result.{Result, ok, raise}
use capabilityhub.Models.Manifests.{ExecutionResult}
use capabilityhub.Idempotency.Records.{
  IdempotencyStatus, in_progress, complete_status, uncertain_status, conflict_status,
  IdempotencySlot, Field, IdempotencyRecord, encode_result, decode_result,
}

pub record Row : Type 0 where
  pub arguments_digest : String
  pub status : IdempotencyStatus
  pub result_json : Option String
  pub updated_at : ℕ

abbrev pub Table : Type 0
Table = Dict String Row

pub record Settings : Type 0 where
  pub persist_results : Bool
  pub result_ttl_seconds : ℕ
  pub max_result_bytes : ℕ

-- The parameters of the store.
pub record Library (Json : Type 0) : Type 0 where
  pub slot_digest : IdempotencySlot → String
  pub print : Dict String (Field Json) → String
  pub load : String → Option (Dict String (Field Json))
  pub byte_length : String → ℕ

abbrev pub is_in_progress : IdempotencyStatus → Bool
is_in_progress in_progress = true
is_in_progress _ = false

abbrev pub is_complete : IdempotencyStatus → Bool
is_complete complete_status = true
is_complete _ = false

-- A row that an `UPDATE … AND status = 'in_progress'` turns.
unfoldable pub settle_row : IdempotencyStatus → Option String → ℕ → Row → Row
settle_row status result_json now row = elim row.status [
  | in_progress ↦ record row { status = status; result_json = result_json; updated_at = now }
  | _ ↦ row
]

-- The `UPDATE` to uncertain, which keeps the result.
unfoldable pub doubt_row : ℕ → Row → Row
doubt_row now row = settle_row uncertain_status row.result_json now row

-- `__init__` on a table that may hold rows already.
unfoldable pub create_store : Settings → Bool → ℕ → Table → Result Table
create_store s recover_abandoned now d =
    if ltb s.result_ttl_seconds 1 || ltb 86400 s.result_ttl_seconds
    then raise value_error
    else if ltb s.max_result_bytes 1024 || ltb 4000000 s.max_result_bytes
    then raise value_error
    else ok (if recover_abandoned then map_values (doubt_row now) d else d)

-- A complete row whose time to live has passed: `now - updated_at >= ttl`, with the terms moved.
abbrev pub is_stale : Settings → ℕ → Row → Bool
is_stale s now row = is_complete row.status && leb (row.updated_at + s.result_ttl_seconds) now

-- The row of the `INSERT` in `reserve`.
abbrev pub reserved_row : String → ℕ → Row
reserved_row arguments_digest now = record {
  arguments_digest = arguments_digest;
  status = in_progress;
  result_json = none;
  updated_at = now;
}

module _ {Json : Type 0} (lib : Library Json) (s : Settings) where
  -- What a row is read as.
  abbrev pub record_of : Row → IdempotencyRecord Json
  record_of row = record {
    arguments_digest = row.arguments_digest;
    status = row.status;
    result = decode_result lib.load row.result_json;
  }

  -- `reserve`, with the clock read for the check and for the `INSERT`.
  unfoldable pub reserve :
      IdempotencySlot → String → ℕ → ℕ → Table → Option (IdempotencyRecord Json) × Table
  reserve slot arguments_digest checked inserted d =
      let key = lib.slot_digest slot in
      elim (get key d) [
        | none ↦ (none, put key (reserved_row arguments_digest inserted) d)
        | some row ↦
            if is_stale s checked row
            then (none, put key (reserved_row arguments_digest inserted) (remove key d))
            else (some (record_of row), d)
      ]

  -- The text that `complete` stores.
  unfoldable pub stored_result : ExecutionResult Json → Option String
  stored_result result =
      let encoded = encode_result lib.print result in
      if s.persist_results && not (ltb s.max_result_bytes (lib.byte_length encoded))
      then some encoded
      else none

  -- `complete`
  unfoldable pub complete : IdempotencySlot → ExecutionResult Json → ℕ → Table → Table
  complete slot result now d =
      alter (lib.slot_digest slot) (settle_row complete_status (stored_result result) now) d

  -- `uncertain`
  unfoldable pub uncertain : IdempotencySlot → ℕ → Table → Table
  uncertain slot now d = alter (lib.slot_digest slot) (doubt_row now) d

  abbrev pub conflicting : IdempotencyRecord Json
  conflicting = record { arguments_digest = ""; status = conflict_status; result = none }

  -- One round of `wait`: the record to return, or none to sleep and go on.
  unfoldable pub poll : IdempotencySlot → String → ℕ → ℕ → Table → Option (IdempotencyRecord Json)
  poll slot arguments_digest deadline now d = elim (get (lib.slot_digest slot) d) [
    | none ↦ some conflicting
    | some row ↦
        if ite (text_dec row.arguments_digest arguments_digest) false true
        then some conflicting
        else if not (is_in_progress row.status)
        then some (record_of row)
        else if leb deadline now
        then some (record_of row)
        else none
  ]

  -- The loop of `wait`, over the table and the clock as they are in each round.
  unfoldable pub wait_loop :
      ℕ → IdempotencySlot → String → ℕ → (ℕ → ℕ) → (ℕ → Table) → ℕ → Option (IdempotencyRecord Json)
  wait_loop zero slot arguments_digest deadline clock tables round = none
  wait_loop (suc fuel) slot arguments_digest deadline clock tables round =
      let rest = wait_loop fuel slot arguments_digest deadline clock tables (round + 1) in
      elim (poll slot arguments_digest deadline (clock round) (tables round)) [
        | none ↦ rest
        | some r ↦ some r
      ]

  -- `wait`, with the clock at its start.
  unfoldable pub wait :
      ℕ → IdempotencySlot → String → ℕ → ℕ → (ℕ → ℕ) → (ℕ → Table) → Option (IdempotencyRecord Json)
  wait fuel slot arguments_digest timeout_seconds started clock tables =
      wait_loop fuel slot arguments_digest (started + timeout_seconds) clock tables 0
