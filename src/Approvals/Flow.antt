-- ===== src/Approvals/Flow.antt =====
-- src/capabilityhub/approval_store.py: the way of an approval from its request to its use.
use capabilityhub.Base.{ℕ, String, ◌≡◌, refl, ap, ◌∙◌, false, none, some, arith, ◌<◌, ◌+◌, ◌==◌}
use capabilityhub.Dict.{text_key, get, put, get-put_self}
use capabilityhub.Dict.Rows.{put_same}
use capabilityhub.Result.{ok}
use capabilityhub.Exec.Steps.{bind_ok}
use capabilityhub.Approvals.{
  approved, consumed, ApprovalIntent, ApprovalRecord, is_empty_text, expire_record, Table, consume,
  request, approve, pending_record, get_record, insert_record, identifier_or, expire_one,
  select_one,
}
use capabilityhub.Approvals.Settling.{
  commit, settle, settle_status, decide-settle, expire_known, select_found,
}
use capabilityhub.Approvals.Consuming.{redeem, redeem_status, consume-redeem}
use capabilityhub.Approvals.Once.{redeem-Usable}

-- A record that is still open is not touched by expiry before its time.
not_expired : (now : ℕ) (r : ApprovalRecord) → now < r.expires_at → expire_record now r ≡ r
unfolding expire_record
not_expired now r h = ground arith

-- Reading an open record does not change it.
get_open :
    (k : String) (now : ℕ) (r : ApprovalRecord) (d : Table)
    → get k d ≡ some r
    → now < r.expires_at
    → get_record k now d ≡ (ok r, d)
unfolding get_record
get_open k now r d there still =
    bind_ok (expire_one k now) (λ _. select_one k) d tt d
      (expire_known k now r d there
        ∙ ap (λ x. (ok tt, put k x d)) (not_expired now r still)
        ∙ ap (λ e. (ok tt, e)) (put_same k r d there))
    ∙ select_found k r d there

identifier_given : (k fresh : String) → is_empty_text k ≡ false → identifier_or (some k) fresh ≡ k
identifier_given k fresh named = rw named refl

request_new :
    (intent : ApprovalIntent) (ttl : ℕ) (k fresh : String) (now : ℕ) (d : Table)
    → 0 < ttl
    → is_empty_text k ≡ false
    → get k d ≡ none
    → request intent ttl (some k) fresh now d
      ≡ (ok (pending_record k intent now ttl), put k (pending_record k intent now ttl) d)
unfolding request insert_record
request_new intent ttl k fresh now d positive named new =
    let p = pending_record k intent now ttl in
    let positive_eq : (ttl == 0) ≡ false = ground arith in
    let inserted : insert_record k p d ≡ (ok tt, put k p d) = rw (new, insert_record) refl in
    rw (positive_eq, identifier_given k fresh named, named)
      (bind_ok (insert_record k p) (λ _. get_record k now) d tt (put k p d) inserted
        ∙ get_open k now p (put k p d) (get-put_self k p d) (omega arith))

-- An approval with a positive time to live and a new, non-empty identifier that is requested, approved
-- by a named decider before it expires, and used before it expires for the same intent, is granted:
-- request returns the pending record, approve the approved one, and consume the consumed one.
pub request-approve-consume :
    (fingerprint : ApprovalIntent → String) (intent : ApprovalIntent) (ttl : ℕ)
    (k fresh who : String) (asked decided used : ℕ) (d : Table)
    → 0 < ttl
    → is_empty_text k ≡ false
    → is_empty_text who ≡ false
    → get k d ≡ none
    → decided < asked + ttl
    → used < asked + ttl
    → let p = pending_record k intent asked ttl in
      let a = record p { status = approved; decided_at = some decided; decided_by = some who } in
      let requested = request intent ttl (some k) fresh asked d in
      let permitted = approve k who decided requested.1 in
      (requested.0 ≡ ok p)
      × (permitted.0 ≡ ok a)
      × ((consume fingerprint k intent used permitted.1).0
          ≡ ok (record a { status = consumed; consumed_at = some used }))
unfolding commit settle settle_status redeem redeem_status
request-approve-consume fingerprint intent ttl k fresh who asked decided used d positive named
      decider new h i =
    let p = pending_record k intent asked ttl in
    let a = record p { status = approved; decided_at = some decided; decided_by = some who } in
    let requested = request_new intent ttl k fresh asked d positive named new in
    let permitted : approve k who decided (put k p d) ≡ (ok a, put k a (put k p d)) =
      decide-settle k approved who decided (put k p d) decider
      ∙ rw (get-put_self k p d, not_expired decided p h) refl in
    let granted : consume fingerprint k intent used (put k a (put k p d))
        ≡ commit k (ok (record a { status = consumed; consumed_at = some used }))
            (put k a (put k p d)) =
      consume-redeem fingerprint k intent used (put k a (put k p d))
      ∙ ap (λ o. commit k (redeem fingerprint intent used o) (put k a (put k p d)))
          (get-put_self k a (put k p d))
      ∙ ap (λ x. commit k x (put k a (put k p d)))
          (redeem-Usable fingerprint intent used a
            (record { is_approved = refl; is_fresh = i; is_intended = refl })) in
    rw (requested, permitted, granted) (refl, refl, refl)
