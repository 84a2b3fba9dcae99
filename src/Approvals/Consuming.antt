-- ===== src/Approvals/Consuming.antt =====
-- src/capabilityhub/approval_store.py: `consume` against what it is to do, in one step.
use capabilityhub.Base.{
  ℕ, String, ◌≡◌, refl, sym, ap, ◌∙◌, subst, inl, inr, Bool, true, false, Option, none, some, arith,
  Option-cases, if◌then◌else◌,
}
use capabilityhub.Dict.{text_key, get, put, get-put_self}
use capabilityhub.Result.{Result, ok, raise}
use capabilityhub.Exec.{Exec, pure, throw, transaction, ◌>>=◌, ◌>>◌}
use capabilityhub.Exec.Steps.{bind_ok}
use capabilityhub.Approvals.Evolution.{expire_record-Trail, Trail-Evolved}
use capabilityhub.Approvals.{
  ApprovalStatus, pending, approved, denied, consumed, expired, ApprovalIntent, ApprovalRecord,
  expire_record, consume_record, same_intent, Table, update_one, expire_one, select_one,
  check_approved, check_intent, consume, approval_not_found, approval_intent_mismatch,
  approval_expired, approval_already_consumed, approval_not_approved,
}
use capabilityhub.Approvals.Settling.{
  commit, update_found, select_found, select_missing, expire_known, expire_missing, recommit,
}

-- The use of a record that is brought up to date.
unfoldable pub redeem_status : ℕ → ApprovalRecord → Result ApprovalRecord
redeem_status now r = elim r.status [
  | approved ↦ ok (record r { status = consumed; consumed_at = some now })
  | expired ↦ raise approval_expired
  | consumed ↦ raise approval_already_consumed
  | _ ↦ raise approval_not_approved
]

module _ (fingerprint : ApprovalIntent → String) where
  -- The use of a record by an intent.
  unfoldable pub redeem : ApprovalIntent → ℕ → Option ApprovalRecord → Result ApprovalRecord
  redeem intent now none = raise approval_not_found
  redeem intent now (some r) =
      if same_intent fingerprint r.intent intent
      then redeem_status now (expire_record now r)
      else raise approval_intent_mismatch

  -- The rest of `consume` once the row is up to date and the intent is compared.
  redeem_found :
      (k : String) (now : ℕ) (r : ApprovalRecord) (d e : Table)
      → get k e ≡ some r
      → (status : ApprovalStatus) → r.status ≡ status
      → transaction
          (λ _.
            (check_approved r.status >>= λ _. update_one k (consume_record now) >> select_one k) e)
          d
        ≡ elim (redeem_status now r) [ ok a ↦ (ok a, put k a e) | raise x ↦ (raise x, d) ]
  unfolding check_approved consume_record redeem_status
  redeem_found k now r d e i pending h = ground arith
  redeem_found k now r d e i approved h = ground (arith, update_found k (consume_record now) r e i)
  redeem_found k now r d e i denied h = ground arith
  redeem_found k now r d e i consumed h = ground arith
  redeem_found k now r d e i expired h = ground arith

  abbrev after_comparison : String → ℕ → ApprovalRecord → Bool → Exec Table ApprovalRecord
  after_comparison k now r same =
      let check : Exec Table (Unit {0}) =
        if same then pure tt else throw approval_intent_mismatch in
      check >>= λ _.
      check_approved r.status >>= λ _. update_one k (consume_record now) >> select_one k

  -- What is left of `consume`, with the stored intent that it compares.
  abbrev Compared :
      String → ℕ → ApprovalRecord → Table → Table → ApprovalIntent → ApprovalIntent → Type 0
  Compared k now r e d intent stored =
      let r1 = expire_record now r in
      transaction (λ _. after_comparison k now r1 (same_intent fingerprint stored intent) e) d
      ≡ commit k
          (if same_intent fingerprint r.intent intent
            then redeem_status now r1
            else raise approval_intent_mismatch)
          d

  compared :
      (k : String) (now : ℕ) (r : ApprovalRecord) (d : Table) (same : Bool)
      → let r1 = expire_record now r in
        let e = put k r1 d in
        transaction (λ _. after_comparison k now r1 same e) d
        ≡ commit k (if same then redeem_status now r1 else raise approval_intent_mismatch) d
  unfolding commit
  compared k now r d true =
      let r1 = expire_record now r in
      let e = put k r1 d in
      redeem_found k now r1 d e (get-put_self k r1 d) r1.status refl
      ∙ recommit k r1 d (redeem_status now r1)
  compared k now r d false = refl

  -- consume is the one step of `redeem`, and writes nothing when it raises.
  pub consume-redeem :
      (k : String) (intent : ApprovalIntent) (now : ℕ) (d : Table)
      → consume fingerprint k intent now d ≡ commit k (redeem intent now (get k d)) d
  unfolding consume redeem commit check_intent
  consume-redeem k intent now d = elim (Option-cases (get k d)) [
    | inl gone ↦ ground (arith, expire_missing k now d gone, select_missing k d gone)
    | inr (r, there) ↦
        let r1 = expire_record now r in
        let e = put k r1 d in
        let found = get-put_self k r1 d in
        let write = update_one k (consume_record now) >> select_one k in
        let check : ApprovalRecord → Exec Table ApprovalRecord = λ x.
          check_intent fingerprint x.intent intent >>= λ _.
          check_approved x.status >>= λ _. write in
        rw there (
          ap (λ p. transaction (λ _. p) d)
            (bind_ok (expire_one k now) (λ _. select_one k >>= check) d tt e
                (expire_known k now r d there)
              ∙ bind_ok (select_one k) check e r1 e (select_found k r1 e found))
          ∙ subst (Compared k now r e d intent)
              (sym (Trail-Evolved (expire_record-Trail now r)).intent)
              (compared k now r d (same_intent fingerprint r.intent intent)))
  ]
