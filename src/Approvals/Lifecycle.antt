-- ===== src/Approvals/Lifecycle.antt =====
-- src/capabilityhub/approval_store.py: what any calls of the store do to its rows.
use capabilityhub.Base.{ℕ, ◌≡◌, refl, true, String, inl, inr, Option, Option-cases, ltb, ◌||◌, ◌==◌}
use capabilityhub.Dict.{text_key, get}
use capabilityhub.Dict.Rows.{Rows, Rows-refl, Rows-trans, Rows-put, Rows-alter, Rows-map}
use capabilityhub.Errors.{value_error}
use capabilityhub.Exec.{Exec, pure, transaction, throw, ◌>>=◌, ◌>>◌}
use capabilityhub.Exec.Steps.{Along, bind-Along, if-Along, transaction-Along}
use capabilityhub.Approvals.Evolution.{
  Trail, stays, Trail-trans, is_decision, expire_record-Trail, decide_record-Trail,
  consume_record-Trail,
}
use capabilityhub.Approvals.{
  ApprovalStatus, pending, approved, denied, consumed, expired, ApprovalIntent, ApprovalRecord,
  is_empty_text, expire_record, pending_record, identifier_or, decide_record, consume_record, Table,
  update_one, expire_one, expire_all, select_one, get_record, insert_record, request, check_pending,
  decide, check_approved, check_intent, consume, selected_rows, list_records, approve, deny,
  same_intent, approval_intent_mismatch,
}

-- Every row is still there, after any number of steps.
unfoldable pub Onward : Table → Table → Type 0
Onward = Rows Trail

Onward-refl : (d : Table) → Onward d d
unfolding Onward
Onward-refl = Rows-refl Trail (λ _. stays)

Onward-trans : (a b c : Table) → Onward a b → Onward b c → Onward a c
unfolding Onward
Onward-trans = Rows-trans Trail (λ r s t. Trail-trans)

Moves : {A : Type 0} → Exec Table A → Type 0
Moves = Along Onward

then_Moves :
    {A B : Type 0} (m : Exec Table A) (f : A → Exec Table B)
    → Moves m
    → ((a : A) → Moves (f a))
    → Moves (m >>= f)
unfolding Moves
then_Moves = bind-Along Onward Onward-trans

transaction-Moves : {A : Type 0} (m : Exec Table A) → Moves m → Moves (transaction m)
unfolding Moves
transaction-Moves m h = transaction-Along Onward m Onward-refl h

update_one-Moves :
    (k : String) (f : ApprovalRecord → ApprovalRecord)
    → ((r : ApprovalRecord) → Trail r (f r))
    → Moves (update_one k f)
unfolding Moves Onward
update_one-Moves k f h d = Rows-alter Trail (λ _. stays) k f d (λ r _. h r)

expire_one-Moves : (k : String) (now : ℕ) → Moves (expire_one k now)
unfolding Moves Onward expire_one
expire_one-Moves k now d =
    Rows-alter Trail (λ _. stays) k (expire_record now) d (λ r _. expire_record-Trail now r)

expire_all-Moves : (now : ℕ) → Moves (expire_all now)
unfolding Moves Onward expire_all
expire_all-Moves now d = Rows-map Trail (expire_record now) d (expire_record-Trail now)

select_one-Moves : (k : String) → Moves (select_one k)
unfolding Moves select_one
select_one-Moves k d = elim (Option-cases (get k d)) [
  | inl gone ↦ rw (gone, select_one) (Onward-refl d)
  | inr (r, there) ↦ rw (there, select_one) (Onward-refl d)
]

get_record-Moves : (k : String) (now : ℕ) → Moves (get_record k now)
unfolding get_record
get_record-Moves k now =
    then_Moves (expire_one k now) (λ _. select_one k) (expire_one-Moves k now)
      (λ _. select_one-Moves k)

insert_record-Moves : (k : String) (r : ApprovalRecord) → Moves (insert_record k r)
unfolding Moves Onward insert_record
insert_record-Moves k r d = elim (Option-cases (get k d)) [
  | inl gone ↦ rw (gone, insert_record) (Rows-put Trail (λ _. stays) k r d (λ v there. absurd (cc)))
  | inr (v, there) ↦ rw (there, insert_record) (Onward-refl d)
]

request-Moves :
    (intent : ApprovalIntent) (ttl : ℕ) (given : Option String) (fresh : String) (now : ℕ)
    → Moves (request intent ttl given fresh now)
unfolding Moves request
request-Moves intent ttl given fresh now =
    let k = identifier_or given fresh in
    if-Along Onward (ttl == 0) (throw value_error) _ Onward-refl (
      if-Along Onward (is_empty_text k) (throw value_error) _ Onward-refl (
        then_Moves (insert_record k (pending_record k intent now ttl)) (λ _. get_record k now)
          (insert_record-Moves k (pending_record k intent now ttl)) (λ _. get_record-Moves k now)))

check_pending-Moves : (s : ApprovalStatus) → Moves (check_pending s)
unfolding Moves check_pending
check_pending-Moves pending d = Onward-refl d
check_pending-Moves approved d = Onward-refl d
check_pending-Moves denied d = Onward-refl d
check_pending-Moves consumed d = Onward-refl d
check_pending-Moves expired d = Onward-refl d

check_approved-Moves : (s : ApprovalStatus) → Moves (check_approved s)
unfolding Moves check_approved
check_approved-Moves pending d = Onward-refl d
check_approved-Moves approved d = Onward-refl d
check_approved-Moves denied d = Onward-refl d
check_approved-Moves consumed d = Onward-refl d
check_approved-Moves expired d = Onward-refl d

-- An `UPDATE` and the `SELECT` after it.
update_then_select-Moves :
    (k : String) (f : ApprovalRecord → ApprovalRecord)
    → ((r : ApprovalRecord) → Trail r (f r))
    → Moves (update_one k f >> select_one k)
update_then_select-Moves k f h =
    then_Moves (update_one k f) (λ _. select_one k) (update_one-Moves k f h)
      (λ _. select_one-Moves k)

decide-Moves :
    (k : String) (s : ApprovalStatus) (who : String) (now : ℕ)
    → is_decision s ≡ true
    → Moves (decide k s who now)
unfolding Moves decide
decide-Moves k s who now made =
    let write = update_one k (decide_record s now who) >> select_one k in
    if-Along Onward (is_empty_text who) (throw value_error) _ Onward-refl (
      transaction-Moves
        (expire_one k now >>= λ _. select_one k >>= λ r. check_pending r.status >>= λ _. write)
        (then_Moves (expire_one k now)
          (λ _. select_one k >>= λ r. check_pending r.status >>= λ _. write)
          (expire_one-Moves k now)
          (λ _.
            then_Moves (select_one k) (λ r. check_pending r.status >>= λ _. write)
              (select_one-Moves k)
              (λ r.
                then_Moves (check_pending r.status) (λ _. write) (check_pending-Moves r.status)
                  (λ _.
                    update_then_select-Moves k (decide_record s now who)
                      (decide_record-Trail s now who made))))))

selected_rows-Moves :
    (status : Option ApprovalStatus) (limit : ℕ) → Moves (selected_rows status limit)
unfolding Moves
selected_rows-Moves status limit = Onward-refl

list_records-Moves :
    (status : Option ApprovalStatus) (limit now : ℕ) → Moves (list_records status limit now)
unfolding Moves list_records
list_records-Moves status limit now =
    if-Along Onward (ltb limit 1 || ltb 500 limit) (throw value_error) _ Onward-refl (
      then_Moves (expire_all now) (λ _. selected_rows status limit) (expire_all-Moves now)
        (λ _. selected_rows-Moves status limit))

module _ (fingerprint : ApprovalIntent → String) where
  check_intent-Moves : (a b : ApprovalIntent) → Moves (check_intent fingerprint a b)
  unfolding Moves check_intent
  check_intent-Moves a b =
      if-Along Onward (same_intent fingerprint a b) (pure tt) (throw approval_intent_mismatch)
        Onward-refl Onward-refl

  consume-Moves :
      (k : String) (intent : ApprovalIntent) (now : ℕ) → Moves (consume fingerprint k intent now)
  unfolding consume
  consume-Moves k intent now =
      let write = update_one k (consume_record now) >> select_one k in
      let check : ApprovalRecord → Exec Table ApprovalRecord = λ r.
        check_intent fingerprint r.intent intent >>= λ _. check_approved r.status >>= λ _. write in
      transaction-Moves (expire_one k now >>= λ _. select_one k >>= check) (
        then_Moves (expire_one k now) (λ _. select_one k >>= check) (expire_one-Moves k now)
          (λ _. then_Moves (select_one k) check (select_one-Moves k) (λ r.
            then_Moves (check_intent fingerprint r.intent intent)
              (λ _. check_approved r.status >>= λ _. write) (check_intent-Moves r.intent intent)
              (λ _.
                then_Moves (check_approved r.status) (λ _. write) (check_approved-Moves r.status)
                  (λ _.
                    update_then_select-Moves k (consume_record now) (consume_record-Trail now))))))

  -- The table after a call, which may have raised.
  pub data Call (d : Table) : Table → Type 0 where
    requests :
        (intent : ApprovalIntent) (ttl : ℕ) (given : Option String) (fresh : String) (now : ℕ)
        → Call d (request intent ttl given fresh now d).1
    gets : (k : String) (now : ℕ) → Call d (get_record k now d).1
    lists :
        (status : Option ApprovalStatus) (limit now : ℕ)
        → Call d (list_records status limit now d).1
    approves : (k who : String) (now : ℕ) → Call d (approve k who now d).1
    denies : (k who : String) (now : ℕ) → Call d (deny k who now d).1
    consumes :
        (k : String) (intent : ApprovalIntent) (now : ℕ)
        → Call d (consume fingerprint k intent now d).1

  pub data Calls (a : Table) : Table → Type 0 where
    here : Calls a a
    next : {b c : Table} → Calls a b → Call b c → Calls a c

  Call-Onward : {d d' : Table} → Call d d' → Onward d d'
  unfolding Moves is_decision
  Call-Onward {d} (requests intent ttl given fresh now) = request-Moves intent ttl given fresh now d
  Call-Onward {d} (gets k now) = get_record-Moves k now d
  Call-Onward {d} (lists status limit now) = list_records-Moves status limit now d
  Call-Onward {d} (approves k who now) = decide-Moves k approved who now refl d
  Call-Onward {d} (denies k who now) = decide-Moves k denied who now refl d
  Call-Onward {d} (consumes k intent now) = consume-Moves k intent now d

  pub Calls-Onward : {d d' : Table} → Calls d d' → Onward d d'
  Calls-Onward {d} here = Onward-refl d
  Calls-Onward {d} {d'} (next {b} run call) =
      Onward-trans d b d' (Calls-Onward run) (Call-Onward call)
