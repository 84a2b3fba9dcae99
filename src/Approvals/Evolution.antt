-- ===== src/Approvals/Evolution.antt =====
-- src/capabilityhub/approval_store.py: what can become of a record.
use capabilityhub.Base.{
  ℕ, ◌≤◌, String, ◌≡◌, refl, sym, subst, inl, inr, ◌⊎◌, Bool, true, false, some, arith, Bool-cases,
  leb, ◌&&◌,
}
use capabilityhub.Approvals.{
  ApprovalStatus, pending, approved, denied, consumed, expired, ApprovalRecord, expire_record,
  decide_record, consume_record, may_expire,
}

-- What a decider can make of a request.
unfoldable pub is_decision : ApprovalStatus → Bool
is_decision approved = true
is_decision denied = true
is_decision _ = false

-- One step in the life of a record. A pending one is approved or denied by a decider, which is noted
-- with the time; an approved one is used, which is noted; a pending or an approved one expires when
-- its time has come. Nothing else of the record changes.
pub data Step (r s : ApprovalRecord) : Type 0 where
  decides :
      (status : ApprovalStatus) (now : ℕ) (who : String)
      → is_decision status ≡ true
      → r.status ≡ pending
      → s ≡ record r { status = status; decided_at = some now; decided_by = some who }
      → Step r s
  uses :
      (now : ℕ)
      → r.status ≡ approved
      → s ≡ record r { status = consumed; consumed_at = some now }
      → Step r s
  expires :
      (now : ℕ)
      → (r.status ≡ pending) ⊎ (r.status ≡ approved)
      → r.expires_at ≤ now
      → s ≡ record r { status = expired }
      → Step r s

-- Any number of steps.
pub data Trail (r : ApprovalRecord) : ApprovalRecord → Type 0 where
  stays : Trail r r
  goes : {s t : ApprovalRecord} → Trail r s → Step s t → Trail r t

pub Trail-trans : {r s t : ApprovalRecord} → Trail r s → Trail s t → Trail r t
Trail-trans h stays = h
Trail-trans h (goes k step) = goes (Trail-trans h k) step

expiring : (x : ApprovalStatus) → may_expire x ≡ true → (x ≡ pending) ⊎ (x ≡ approved)
expiring pending e = inl refl
expiring approved e = inr refl
expiring denied e = absurd (cc)
expiring consumed e = absurd (cc)
expiring expired e = absurd (cc)

pub expire_record-Trail : (now : ℕ) (r : ApprovalRecord) → Trail r (expire_record now r)
unfolding expire_record
expire_record-Trail now r = elim (Bool-cases (may_expire r.status && leb r.expires_at now)) [
  | inl goes_on ↦
      goes stays (expires now (expiring r.status (ground arith)) (ground arith) (rw goes_on refl))
  | inr as_is ↦ rw as_is stays
]

pub decide_record-Trail :
    (status : ApprovalStatus) (now : ℕ) (who : String)
    → is_decision status ≡ true
    → (r : ApprovalRecord) → Trail r (decide_record status now who r)
unfolding decide_record
decide_record-Trail status now who made r = by_status r.status refl
  where
    by_status :
        (x : ApprovalStatus)
        → r.status ≡ x
        → Trail r (elim x [
          | pending ↦ record r { status = status; decided_at = some now; decided_by = some who }
          | _ ↦ r
        ])
    by_status pending was = goes stays (decides status now who made was refl)
    by_status approved was = stays
    by_status denied was = stays
    by_status consumed was = stays
    by_status expired was = stays

pub consume_record-Trail : (now : ℕ) (r : ApprovalRecord) → Trail r (consume_record now r)
unfolding consume_record
consume_record-Trail now r = by_status r.status refl
  where
    by_status :
        (x : ApprovalStatus)
        → r.status ≡ x
        → Trail r
            (elim x [ approved ↦ record r { status = consumed; consumed_at = some now } | _ ↦ r ])
    by_status pending was = stays
    by_status approved was = goes stays (uses now was refl)
    by_status denied was = stays
    by_status consumed was = stays
    by_status expired was = stays

-- A decision is final once it was a denial, was used or has expired.
unfoldable pub is_final : ApprovalStatus → Bool
is_final pending = false
is_final approved = false
is_final s = true

-- What no steps change: the name, the intent and the times of a record, and all of a final one.
pub record Evolved (r s : ApprovalRecord) : Type 0 where
  pub identifier : s.approval_id ≡ r.approval_id
  pub intent : s.intent ≡ r.intent
  pub created : s.created_at ≡ r.created_at
  pub expiry : s.expires_at ≡ r.expires_at
  pub final : is_final r.status ≡ true → s ≡ r

Evolved-refl : (r : ApprovalRecord) → Evolved r r
Evolved-refl r = record {
  identifier = refl;
  intent = refl;
  created = refl;
  expiry = refl;
  final = λ _. refl;
}

Evolved-trans : (r s t : ApprovalRecord) → Evolved r s → Evolved s t → Evolved r t
Evolved-trans r s t h k = record {
  identifier = cc;
  intent = cc;
  created = cc;
  expiry = cc;
  final = λ f.
      let same = h.final f in
      subst (λ x. t ≡ x) same (k.final (subst (λ x. is_final x.status ≡ true) (sym same) f));
}

Step-Evolved : (r s : ApprovalRecord) → Step r s → Evolved r s
unfolding is_final
Step-Evolved r s (decides status now who made was same) = subst (Evolved r) (sym same) (record {
  identifier = refl;
  intent = refl;
  created = refl;
  expiry = refl;
  final = λ f. absurd (ground arith);
})
Step-Evolved r s (uses now was same) = subst (Evolved r) (sym same) (record {
  identifier = refl;
  intent = refl;
  created = refl;
  expiry = refl;
  final = λ f. absurd (ground arith);
})
Step-Evolved r s (expires now was late same) = subst (Evolved r) (sym same) (record {
  identifier = refl;
  intent = refl;
  created = refl;
  expiry = refl;
  final = λ f. absurd (ground arith);
})

pub Trail-Evolved : {r s : ApprovalRecord} → Trail r s → Evolved r s
Trail-Evolved {r} stays = Evolved-refl r
Trail-Evolved {r} {s = t} (goes {s = s} h step) =
    Evolved-trans r s t (Trail-Evolved h) (Step-Evolved s t step)
