-- ===== src/Approvals/Store.antt =====
-- src/capabilityhub/approval_store.py: `SqliteApprovalStore`. The table is a dictionary by approval
-- identifier; each SQL statement is what it does to the table. A time is a count of a unit, given to
-- each method.
use capabilityhub.Base.{
  ℕ, zero, suc, String, Bool, true, false, ◌&&◌, ◌||◌, Option, none, some, List, [], ◌∷◌, ltb, ◌==◌,
  if◌then◌else◌, ite, text_dec, codes, codes_before,
}
use capabilityhub.Dict.{Dict, text_key, get, put}
use capabilityhub.Dict.Rows.{alter, map_values}
use capabilityhub.Errors.{value_error}
use capabilityhub.Result.{ok, raise}
use capabilityhub.Exec.{Exec, pure, throw, transaction, ◌>>=◌, ◌>>◌}
use capabilityhub.Approvals.Records.{
  ApprovalStatus, pending, approved, denied, consumed, expired, ApprovalIntent, ApprovalRecord,
  is_empty_text, approval_not_found, approval_intent_mismatch, approval_expired,
  approval_already_consumed, approval_not_approved, approval_invalid_transition, expire_record,
  pending_record, identifier_or, decide_record, consume_record,
}

abbrev pub Table : Type 0
Table = Dict String ApprovalRecord

-- `_expire` of one identifier.
unfoldable pub expire_one : String → ℕ → Exec Table (Unit {0})
expire_one approval_id now d = (ok tt, alter approval_id (expire_record now) d)

-- `_expire` of all.
unfoldable pub expire_all : ℕ → Exec Table (Unit {0})
expire_all now d = (ok tt, map_values (expire_record now) d)

-- `SELECT … WHERE approval_id = ?`, and the error where no row is there.
unfoldable pub select_one : String → Exec Table ApprovalRecord
select_one approval_id d = elim (get approval_id d) [
  | none ↦ (raise approval_not_found, d)
  | some r ↦ (ok r, d)
]

-- An `UPDATE … WHERE approval_id = ?`.
abbrev pub update_one : String → (ApprovalRecord → ApprovalRecord) → Exec Table (Unit {0})
update_one approval_id f d = (ok tt, alter approval_id f d)

-- `get`: the block of the connection ends before the missing row is noticed.
unfoldable pub get_record : String → ℕ → Exec Table ApprovalRecord
get_record approval_id now = do expire_one approval_id now; select_one approval_id

-- The `INSERT` of `request`.
unfoldable pub insert_record : String → ApprovalRecord → Exec Table (Unit {0})
insert_record identifier r d = elim (get identifier d) [
  | none ↦ (ok tt, put identifier r d)
  | some _ ↦ (raise value_error, d)
]

-- `request`, with the identifier that it makes up where none is given.
unfoldable pub request : ApprovalIntent → ℕ → Option String → String → ℕ → Exec Table ApprovalRecord
request intent ttl_seconds approval_id fresh now =
    let identifier = identifier_or approval_id fresh in
    if ttl_seconds == 0
    then throw value_error
    else if is_empty_text identifier
    then throw value_error
    else do
      insert_record identifier (pending_record identifier intent now ttl_seconds)
      get_record identifier now

-- The check of the status in `_decide`.
unfoldable pub check_pending : ApprovalStatus → Exec Table (Unit {0})
check_pending pending d = (ok tt, d)
check_pending expired d = (raise approval_expired, d)
check_pending _ d = (raise approval_invalid_transition, d)

-- `_decide`
unfoldable pub decide : String → ApprovalStatus → String → ℕ → Exec Table ApprovalRecord
decide approval_id status decided_by now =
    if is_empty_text decided_by
    then throw value_error
    else transaction (do
      expire_one approval_id now
      r ← select_one approval_id
      check_pending r.status
      update_one approval_id (decide_record status now decided_by)
      select_one approval_id)

-- `approve` and `deny`
abbrev pub approve : String → String → ℕ → Exec Table ApprovalRecord
approve approval_id = decide approval_id approved

abbrev pub deny : String → String → ℕ → Exec Table ApprovalRecord
deny approval_id = decide approval_id denied

-- The check of the status in `consume`.
unfoldable pub check_approved : ApprovalStatus → Exec Table (Unit {0})
check_approved approved d = (ok tt, d)
check_approved expired d = (raise approval_expired, d)
check_approved consumed d = (raise approval_already_consumed, d)
check_approved _ d = (raise approval_not_approved, d)

module _ (fingerprint : ApprovalIntent → String) where
  -- `_same_intent`
  abbrev pub same_intent : ApprovalIntent → ApprovalIntent → Bool
  same_intent left right = ite (text_dec (fingerprint left) (fingerprint right)) true false

  unfoldable pub check_intent : ApprovalIntent → ApprovalIntent → Exec Table (Unit {0})
  check_intent stored given =
      if same_intent stored given then pure tt else throw approval_intent_mismatch

  -- `consume`
  unfoldable pub consume : String → ApprovalIntent → ℕ → Exec Table ApprovalRecord
  consume approval_id intent now = transaction (do
    expire_one approval_id now
    r ← select_one approval_id
    check_intent r.intent intent
    check_approved r.status
    update_one approval_id (consume_record now)
    select_one approval_id)

-- `ORDER BY created_at DESC, approval_id DESC`
abbrev pub listed_before : ApprovalRecord → ApprovalRecord → Bool
listed_before a b =
    ltb b.created_at a.created_at
    || a.created_at == b.created_at && codes_before (codes b.approval_id) (codes a.approval_id)

unfoldable pub insert_ordered : ApprovalRecord → List ApprovalRecord → List ApprovalRecord
insert_ordered r [] = r ∷ []
insert_ordered r (x ∷ xs) =
    let rest = insert_ordered r xs in if listed_before r x then r ∷ x ∷ xs else x ∷ rest

abbrev pub same_status : ApprovalStatus → ApprovalStatus → Bool
same_status pending pending = true
same_status approved approved = true
same_status denied denied = true
same_status consumed consumed = true
same_status expired expired = true
same_status _ _ = false

-- The condition of the `SELECT` of `list`.
abbrev pub is_selected : Option ApprovalStatus → ApprovalRecord → Bool
is_selected none r = true
is_selected (some status) r = same_status r.status status

unfoldable pub select_ordered : Option ApprovalStatus → Table → List ApprovalRecord
select_ordered status [] = []
select_ordered status ((_, r) ∷ d) =
    let rest = select_ordered status d in
    if is_selected status r then insert_ordered r rest else rest

-- `LIMIT ?`
abbrev pub take : ℕ → List ApprovalRecord → List ApprovalRecord
take zero xs = []
take (suc n) [] = []
take (suc n) (x ∷ xs) = x ∷ take n xs

-- The rows that `list` reads.
abbrev pub selected_rows : Option ApprovalStatus → ℕ → Exec Table (List ApprovalRecord)
selected_rows status limit d = (ok (take limit (select_ordered status d)), d)

-- `list`
unfoldable pub list_records : Option ApprovalStatus → ℕ → ℕ → Exec Table (List ApprovalRecord)
list_records status limit now =
    if ltb limit 1 || ltb 500 limit
    then throw value_error
    else do expire_all now; selected_rows status limit
