-- ===== src/Approvals/Once.antt =====
-- src/capabilityhub/approval_store.py: what lets an approval be used, and that it is used once.
use capabilityhub.Base.{
  ℕ, String, ◌≡◌, refl, sym, ap, ◌∙◌, inl, inr, ◌↔◌, Option, none, some, arith, Bool-cases, ◌<◌,
}
use capabilityhub.Dict.{text_key, get, get-put_self}
use capabilityhub.Errors.{Exc}
use capabilityhub.Result.{Result, ok, raise}
use capabilityhub.Approvals.{
  approved, consumed, ApprovalIntent, ApprovalRecord, expire_record, same_intent, Table, consume,
  approval_already_consumed, approval_intent_mismatch,
}
use capabilityhub.Approvals.Evolution.{is_final, Trail-Evolved}
use capabilityhub.Approvals.Settling.{commit}
use capabilityhub.Approvals.Consuming.{redeem, redeem_status, consume-redeem}
use capabilityhub.Approvals.Lifecycle.{Onward, Calls, Calls-Onward}

commit_ok :
    (k : String) (x : Result ApprovalRecord) (d : Table) (r : ApprovalRecord)
    → (commit k x d).0 ≡ ok r
    → (x ≡ ok r) × (get k (commit k x d).1 ≡ some r)
unfolding commit
commit_ok k (ok a) d r h = ground (arith, get-put_self k a d)
commit_ok k (raise e) d r h = absurd (ground arith)

-- A record that can be used.
pub record Usable (fingerprint : ApprovalIntent → String) (intent : ApprovalIntent) (now : ℕ)
    (r : ApprovalRecord) : Type 0 where
  pub is_approved : r.status ≡ approved
  pub is_fresh : now < r.expires_at
  pub is_intended : fingerprint r.intent ≡ fingerprint intent

module _ (fingerprint : ApprovalIntent → String) where
  redeem_ok :
      (intent : ApprovalIntent) (now : ℕ) (s : ApprovalRecord) (r : ApprovalRecord)
      → redeem fingerprint intent now (some s) ≡ ok r
      → Usable fingerprint intent now s × (r.status ≡ consumed)
  unfolding redeem redeem_status expire_record
  redeem_ok intent now s r h = (
    record { is_approved = ground arith; is_fresh = ground arith; is_intended = ground arith },
    ground arith,
  )

  pub redeem-Usable :
      (intent : ApprovalIntent) (now : ℕ) (s : ApprovalRecord)
      → Usable fingerprint intent now s
      → redeem fingerprint intent now (some s)
        ≡ ok (record s { status = consumed; consumed_at = some now })
  unfolding redeem redeem_status expire_record
  redeem-Usable intent now s h = ground arith

  -- A record that was used is refused.
  redeem_used :
      (intent : ApprovalIntent) (now : ℕ) (s : ApprovalRecord)
      → s.status ≡ consumed
      → (e : Exc) × (redeem fingerprint intent now (some s) ≡ raise e)
  unfolding redeem redeem_status expire_record
  redeem_used intent now s h = elim (Bool-cases (same_intent fingerprint s.intent intent)) [
    | inl same ↦ (approval_already_consumed, ground arith)
    | inr other ↦ (approval_intent_mismatch, ground arith)
  ]

  consume_ok :
      (k : String) (intent : ApprovalIntent) (now : ℕ) (d : Table) (r : ApprovalRecord)
      → (consume fingerprint k intent now d).0 ≡ ok r
      → (redeem fingerprint intent now (get k d) ≡ ok r)
        × (get k (consume fingerprint k intent now d).1 ≡ some r)
  consume_ok k intent now d r h =
      let step = consume-redeem fingerprint k intent now d in
      let found =
        commit_ok k (redeem fingerprint intent now (get k d)) d r (sym (ap (λ p. p.0) step) ∙ h) in
      (found.0, ap (λ p. get k p.1) step ∙ found.1)

  redeem-some :
      (intent : ApprovalIntent) (now : ℕ) (o : Option ApprovalRecord) (r : ApprovalRecord)
      → redeem fingerprint intent now o ≡ ok r
      → (s : ApprovalRecord) × (o ≡ some s)
        × Usable fingerprint intent now s
        × (r.status ≡ consumed)
  unfolding redeem
  redeem-some intent now none r h = absurd (ground arith)
  redeem-some intent now (some s) r h =
      let found = redeem_ok intent now s r h in (s, refl, found.0, found.1)

  -- consume returns exactly for an approval that is stored, approved, not expired at the time of the
  -- call, and given for an intent with the same fingerprint.
  pub consume_iff :
      (k : String) (intent : ApprovalIntent) (now : ℕ) (d : Table)
      → ((r : ApprovalRecord) × ((consume fingerprint k intent now d).0 ≡ ok r))
        ↔ ((s : ApprovalRecord) × (get k d ≡ some s) × Usable fingerprint intent now s)
  unfolding commit
  consume_iff k intent now d = (forth, back)
    where
      forth :
          (r : ApprovalRecord) × ((consume fingerprint k intent now d).0 ≡ ok r)
          → (s : ApprovalRecord) × (get k d ≡ some s) × Usable fingerprint intent now s
      forth (r, h) =
          let found = redeem-some intent now (get k d) r (consume_ok k intent now d r h).0 in
          (found.0, found.1, found.2)

      back :
          (s : ApprovalRecord) × (get k d ≡ some s) × Usable fingerprint intent now s
          → (r : ApprovalRecord) × ((consume fingerprint k intent now d).0 ≡ ok r)
      back (s, there, usable) =
          let done = redeem-Usable intent now s usable in
          (
            record s { status = consumed; consumed_at = some now },
            ap (λ p. p.0) (consume-redeem fingerprint k intent now d)
                ∙ ap (λ o. (commit k (redeem fingerprint intent now o) d).0) there
                ∙ ap (λ x. (commit k x d).0) done,
          )

  -- An approval is used once: after a consume that returned, and any calls of the store after it,
  -- refused ones included, every consume of the same approval raises.
  pub consume_once :
      (k : String) (intent : ApprovalIntent) (now : ℕ) (d : Table) (r : ApprovalRecord)
      → (consume fingerprint k intent now d).0 ≡ ok r
      → (e : Table) → Calls fingerprint (consume fingerprint k intent now d).1 e
      → (other : ApprovalIntent) (later : ℕ)
      → (x : Exc) × ((consume fingerprint k other later e).0 ≡ raise x)
  unfolding Onward is_final commit
  consume_once k intent now d r h e run other later =
      let (before, after) = consume_ok k intent now d r h in
      let (s, was, usable, used) = redeem-some intent now (get k d) r before in
      let (w, there, trail) = Calls-Onward fingerprint run k r after in
      let kept : w ≡ r = (Trail-Evolved trail).final (rw used refl) in
      let (x, refused) = redeem_used other later w (rw (kept, used) refl) in
      (
        x,
        ap (λ p. p.0) (consume-redeem fingerprint k other later e)
            ∙ ap (λ o. (commit k (redeem fingerprint other later o) e).0) there
            ∙ ap (λ y. (commit k y e).0) refused,
      )
