-- ===== src/Idempotency/Replay.antt =====
-- src/capabilityhub/idempotency.py: that a completed execution is answered from its record.
use capabilityhub.Base.{
  ℕ, ◌+◌, ◌≤◌, ◌<◌, String, ◌≡◌, sym, ap, ◌∙◌, inl, inr, true, false, none, some, arith, Bool-cases,
  Option-cases, ltb,
}
use capabilityhub.Dict.{text_key, get, remove, get-put_self}
use capabilityhub.Dict.Rows.{get-alter_self}
use capabilityhub.Models.Manifests.{ExecutionResult}
use capabilityhub.Idempotency.{
  complete_status, IdempotencySlot, Table, Settings, result_fields, encode_result, decode_result,
  fields_result-result_fields, Library, settle_row, is_stale, reserved_row, record_of, reserve,
  stored_result, complete,
}
use capabilityhub.Idempotency.Reserving.{reserve_known}

module _ {Json : Type 0} (lib : Library Json) (s : Settings) where
  -- What a reservation leaves under the slot.
  reserved_there :
      (slot : IdempotencySlot) (digest : String) (checked inserted : ℕ) (d : Table)
      → (reserve lib s slot digest checked inserted d).0 ≡ none
      → get (lib.slot_digest slot) (reserve lib s slot digest checked inserted d).1
        ≡ some (reserved_row digest inserted)
  unfolding reserve
  reserved_there slot digest checked inserted d free =
      let mine = lib.slot_digest slot in
      let new = reserved_row digest inserted in
      elim (Option-cases (get mine d)) [
        | inl gone ↦ rw (gone, reserve) (get-put_self mine new d)
        | inr (row, there) ↦ elim (Bool-cases (is_stale s checked row)) [
          | inl old ↦ rw (there, old, reserve) (get-put_self mine new (remove mine d))
          | inr fresh ↦
              let known : some (record_of lib s row) ≡ none =
                sym (
                  ap (λ p. p.0)
                    (reserve_known lib s slot digest checked inserted d row there fresh))
                ∙ free in
              absurd (cc known)
        ]
      ]

  decode_stored :
      (r : ExecutionResult Json)
      → lib.load (lib.print (result_fields r)) ≡ some (result_fields r)
      → s.persist_results ≡ true
      → lib.byte_length (encode_result lib.print r) ≤ s.max_result_bytes
      → decode_result lib.load (stored_result lib s r) ≡ some r
  unfolding stored_result encode_result decode_result
  decode_stored r reads keeps fits =
      let small : ltb s.max_result_bytes (lib.byte_length (encode_result lib.print r)) ≡ false =
        ground arith in
      rw (keeps, small, reads) (fields_result-result_fields r)

  -- Where results are kept, the text of the result is not too long, and the JSON library reads what it
  -- prints of the result: after a reservation and its completion, a reserve of the slot before the time
  -- to live has passed returns the arguments' digest of the reservation and the result itself.
  pub reserve-complete :
      (slot : IdempotencySlot) (digest : String) (checked inserted : ℕ) (d : Table)
      → (reserve lib s slot digest checked inserted d).0 ≡ none
      → (r : ExecutionResult Json) → lib.load (lib.print (result_fields r)) ≡ some (result_fields r)
      → s.persist_results ≡ true
      → lib.byte_length (encode_result lib.print r) ≤ s.max_result_bytes
      → (now later written : ℕ) (other : String) → later < now + s.result_ttl_seconds
      → (reserve lib s slot other later written
          (complete lib s slot r now (reserve lib s slot digest checked inserted d).1)).0
        ≡ some (record { arguments_digest = digest; status = complete_status; result = some r })
  unfolding complete settle_row
  reserve-complete slot digest checked inserted d free r reads keeps fits now later written other
        early =
      let mine = lib.slot_digest slot in
      let e = (reserve lib s slot digest checked inserted d).1 in
      let row = reserved_row digest inserted in
      let done = record row {
        status = complete_status;
        result_json = stored_result lib s r;
        updated_at = now;
      } in
      let there : get mine (complete lib s slot r now e) ≡ some done =
        get-alter_self mine (settle_row complete_status (stored_result lib s r) now) e row
          (reserved_there slot digest checked inserted d free) in
      ap (λ p. p.0)
        (reserve_known lib s slot other later written (complete lib s slot r now e) done there
          (ground arith))
      ∙ ap (λ x. some (record { arguments_digest = digest; status = complete_status; result = x }))
          (decode_stored r reads keeps fits)
