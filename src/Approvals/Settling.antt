-- ===== src/Approvals/Settling.antt =====
-- src/capabilityhub/approval_store.py: `_decide` against what it is to do, in one step.
use capabilityhub.Base.{
  ℕ, String, ◌≡◌, refl, ap, ◌∙◌, inl, inr, false, Option, none, some, arith, Option-cases,
}
use capabilityhub.Dict.{text_key, get, put, get-put_self}
use capabilityhub.Dict.Rows.{alter_known, alter_absent, put-put}
use capabilityhub.Result.{Result, ok, raise}
use capabilityhub.Exec.{Exec, transaction, ◌>>=◌, ◌>>◌}
use capabilityhub.Exec.Steps.{bind_ok}
use capabilityhub.Approvals.{
  ApprovalStatus, pending, approved, denied, consumed, expired, ApprovalRecord, is_empty_text,
  expire_record, decide_record, Table, update_one, expire_one, select_one, check_pending, decide,
  approval_not_found, approval_expired, approval_invalid_transition,
}

-- What a decided call leaves: the new row, or, where it raises, the table as it was.
unfoldable pub commit : String → Result ApprovalRecord → Table → Result ApprovalRecord × Table
commit k (ok r) d = (ok r, put k r d)
commit k (raise e) d = (raise e, d)

-- The decision on a record that is brought up to date.
unfoldable pub settle_status : ApprovalStatus → ℕ → String → ApprovalRecord → Result ApprovalRecord
settle_status s now who r = elim r.status [
  | pending ↦ ok (record r { status = s; decided_at = some now; decided_by = some who })
  | expired ↦ raise approval_expired
  | _ ↦ raise approval_invalid_transition
]

unfoldable pub settle : ApprovalStatus → ℕ → String → Option ApprovalRecord → Result ApprovalRecord
settle s now who none = raise approval_not_found
settle s now who (some r) = settle_status s now who (expire_record now r)

pub select_found :
    (k : String) (r : ApprovalRecord) (d : Table) → get k d ≡ some r → select_one k d ≡ (ok r, d)
unfolding select_one
select_found k r d i = rw (i, select_one) refl

pub update_found :
    (k : String) (f : ApprovalRecord → ApprovalRecord) (r : ApprovalRecord) (d : Table)
    → get k d ≡ some r
    → (update_one k f >> select_one k) d ≡ (ok (f r), put k (f r) d)
update_found k f r d i =
    rw (alter_known k f d r i) (select_found k (f r) (put k (f r) d) (get-put_self k (f r) d))

-- The rest of `_decide` once the row is up to date and found.
settle_found :
    (k : String) (s : ApprovalStatus) (now : ℕ) (who : String) (r : ApprovalRecord) (d e : Table)
    → get k e ≡ some r
    → (status : ApprovalStatus) → r.status ≡ status
    → transaction
        (λ _.
          (check_pending r.status >>= λ _. update_one k (decide_record s now who) >> select_one k)
            e)
        d
      ≡ elim (settle_status s now who r) [ ok a ↦ (ok a, put k a e) | raise x ↦ (raise x, d) ]
unfolding check_pending decide_record settle_status
settle_found k s now who r d e i pending h =
    ground (arith, update_found k (decide_record s now who) r e i)
settle_found k s now who r d e i approved h = ground arith
settle_found k s now who r d e i denied h = ground arith
settle_found k s now who r d e i consumed h = ground arith
settle_found k s now who r d e i expired h = ground arith

pub select_missing :
    (k : String) (d : Table) → get k d ≡ none → select_one k d ≡ (raise approval_not_found, d)
unfolding select_one
select_missing k d i = rw (i, select_one) refl

pub expire_known :
    (k : String) (now : ℕ) (r : ApprovalRecord) (d : Table)
    → get k d ≡ some r
    → expire_one k now d ≡ (ok tt, put k (expire_record now r) d)
unfolding expire_one
expire_known k now r d i = rw (alter_known k (expire_record now) d r i) refl

pub expire_missing :
    (k : String) (now : ℕ) (d : Table) → get k d ≡ none → expire_one k now d ≡ (ok tt, d)
unfolding expire_one
expire_missing k now d i = rw (alter_absent k (expire_record now) d i) refl

-- The row that expiry has written is overwritten.
pub recommit :
    (k : String) (r : ApprovalRecord) (d : Table) (x : Result ApprovalRecord)
    → elim x [ ok a ↦ (ok a, put k a (put k r d)) | raise e ↦ (raise e, d) ] ≡ commit k x d
unfolding commit
recommit k r d (ok a) = rw (put-put k r a d) refl
recommit k r d (raise e) = refl

-- A decision with a name is the one step of `settle`, and writes nothing when it raises.
pub decide-settle :
    (k : String) (s : ApprovalStatus) (who : String) (now : ℕ) (d : Table)
    → is_empty_text who ≡ false
    → decide k s who now d ≡ commit k (settle s now who (get k d)) d
unfolding decide settle commit
decide-settle k s who now d named = elim (Option-cases (get k d)) [
  | inl gone ↦ ground (arith, expire_missing k now d gone, select_missing k d gone)
  | inr (r, there) ↦
      let r1 = expire_record now r in
      let e = put k r1 d in
      let found = get-put_self k r1 d in
      let write = update_one k (decide_record s now who) >> select_one k in
      let check : ApprovalRecord → Exec Table ApprovalRecord =
        λ x. check_pending x.status >>= λ _. write in
      rw (named, there)
        (ap (λ p. transaction (λ _. p) d)
            (bind_ok (expire_one k now) (λ _. select_one k >>= check) d tt e
                (expire_known k now r d there)
              ∙ bind_ok (select_one k) check e r1 e (select_found k r1 e found))
          ∙ settle_found k s now who r1 d e found r1.status refl
          ∙ recommit k r1 d (settle_status s now who r1))
]
