-- ===== src/Approvals/Scoped/Isolation.antt =====
-- src/capabilityhub/approval_store.py: that the calls of one scope leave the rows of others alone.
use capabilityhub.Base.{ℕ, String, Bool, true, false, Option, if◌then◌else◌, ◌==◌}
use capabilityhub.Dict.{text_key, pair_key}
use capabilityhub.Errors.{value_error}
use capabilityhub.Exec.{Exec, pure, throw, ◌>>=◌}
use capabilityhub.Exec.Steps.{Along, transaction-Along}
use capabilityhub.Approvals.{
  ApprovalStatus, approved, denied, ApprovalIntent, ApprovalRecord, identifier_or, is_empty_text,
  approval_not_found, approval_intent_mismatch,
}
use capabilityhub.Approvals.Scoped.{
  TenantScope, ScopedRow, ScopedTable, scoped_record, pending_row, expire_row, decide_row,
  consume_row, update_row, expire_scope, select_row, insert_row, Digests, require_matching_scope,
  require_pending, require_approved, digests, read_row, get_scoped, request_row, request_scoped,
  decide_key, decide_scoped, decide_as, require_intent, consume_key, consume_scoped, listed_rows,
  list_scoped, approve_as, deny_as, approve_scoped, deny_scoped,
}
use capabilityhub.Approvals.Scoped.Apart.{
  Apart, Apart-refl, Apart-trans, then_Apart, if_Apart, update_row-Apart, expire_scope-Apart,
  select_row-Apart, insert_row-Apart, require_pending-Apart, require_approved-Apart,
}

module _ (lib : Digests) (scope : TenantScope) where
  -- The key that the methods work with is one of the scope.
  digests_then :
      {A : Type 0} (approval_id : String) (f : String × String → Exec ScopedTable A)
      → ((i : String) → Along (Apart (lib.of_scope scope)) (f (lib.of_scope scope, i)))
      → Along (Apart (lib.of_scope scope)) (digests lib scope approval_id >>= f)
  unfolding digests
  digests_then {A} approval_id f h = by_text (is_empty_text approval_id)
    where
      i : String
      i = lib.of_approval (lib.of_scope scope) approval_id

      by_text :
          (c : Bool)
          → Along
              (Apart (lib.of_scope scope))
              (◌>>=◌ {B = A} (if c then throw value_error else pure (lib.of_scope scope, i)) f)
      by_text true = Apart-refl (lib.of_scope scope)
      by_text false = h i

  read_row-Apart :
      (now : ℕ) (i : String)
      → Along (Apart (lib.of_scope scope)) (read_row lib scope now (lib.of_scope scope, i))
  unfolding read_row
  read_row-Apart now i =
      let a = lib.of_scope scope in
      then_Apart a (update_row (a, i) (expire_row now))
        (λ _. select_row (a, i) >>= λ row. pure (scoped_record row scope))
        (update_row-Apart a i (expire_row now))
        (λ _.
          then_Apart a (select_row (a, i)) (λ row. pure (scoped_record row scope))
            (select_row-Apart a (a, i)) (λ _. Apart-refl a))

  get_scoped-Apart :
      (approval_id : String) (now : ℕ)
      → Along (Apart (lib.of_scope scope)) (get_scoped lib scope approval_id now)
  unfolding get_scoped
  get_scoped-Apart approval_id now =
      digests_then approval_id (read_row lib scope now) (read_row-Apart now)

  require_matching_scope-Apart :
      (intent : ApprovalIntent)
      → Along (Apart (lib.of_scope scope)) (require_matching_scope scope intent)
  unfolding require_matching_scope
  require_matching_scope-Apart intent =
      let a = lib.of_scope scope in
      if_Apart a _ (pure tt) (throw approval_not_found) (Apart-refl a) (Apart-refl a)

  request_row-Apart :
      (intent : ApprovalIntent) (ttl : ℕ) (identifier : String) (now : ℕ)
      → Along (Apart (lib.of_scope scope)) (request_row lib scope intent ttl identifier now)
  unfolding request_row
  request_row-Apart intent ttl identifier now =
      let a = lib.of_scope scope in
      digests_then identifier
        (λ key. insert_row key (pending_row identifier intent now ttl) >>= λ _.
          get_scoped lib scope identifier now)
        (λ i.
          then_Apart a (insert_row (a, i) (pending_row identifier intent now ttl))
            (λ _. get_scoped lib scope identifier now)
            (insert_row-Apart a i (pending_row identifier intent now ttl))
            (λ _. get_scoped-Apart identifier now))

  request_scoped-Apart :
      (intent : ApprovalIntent) (ttl : ℕ) (given : Option String) (fresh : String) (now : ℕ)
      → Along (Apart (lib.of_scope scope)) (request_scoped lib scope intent ttl given fresh now)
  unfolding request_scoped
  request_scoped-Apart intent ttl given fresh now =
      let a = lib.of_scope scope in
      let k = identifier_or given fresh in
      let named = request_row lib scope intent ttl k now in
      then_Apart a (require_matching_scope scope intent)
        (λ _.
          if ttl == 0
          then throw value_error
          else if is_empty_text k
          then throw value_error
          else named)
        (require_matching_scope-Apart intent)
        (λ _.
          if_Apart a _ (throw value_error) (if is_empty_text k then throw value_error else named)
            (Apart-refl a)
            (if_Apart a _ (throw value_error) named (Apart-refl a)
              (request_row-Apart intent ttl k now)))

  decide_key-Apart :
      (status : ApprovalStatus) (who : String) (now : ℕ) (i : String)
      → Along (Apart (lib.of_scope scope)) (decide_key lib status who now (lib.of_scope scope, i))
  unfolding decide_key
  decide_key-Apart status who now i =
      let a = lib.of_scope scope in
      let write = update_row (a, i) (decide_row status now who) in
      let check : ScopedRow → Exec ScopedTable (Unit {0}) =
        λ row. require_pending row.status >>= λ _. write in
      transaction-Along (Apart a)
        (update_row (a, i) (expire_row now) >>= λ _. select_row (a, i) >>= check) (Apart-refl a)
        (then_Apart a (update_row (a, i) (expire_row now)) (λ _. select_row (a, i) >>= check)
          (update_row-Apart a i (expire_row now))
          (λ _. then_Apart a (select_row (a, i)) check (select_row-Apart a (a, i)) (λ row.
            then_Apart a (require_pending row.status) (λ _. write)
              (require_pending-Apart a row.status)
              (λ _. update_row-Apart a i (decide_row status now who)))))

  decide_scoped-Apart :
      (approval_id : String) (status : ApprovalStatus) (who : String) (now : ℕ)
      → Along (Apart (lib.of_scope scope)) (decide_scoped lib scope approval_id status who now)
  unfolding decide_scoped
  decide_scoped-Apart approval_id status who now =
      let a = lib.of_scope scope in
      let decided = digests lib scope approval_id >>= λ key.
      decide_key lib status who now key >>= λ _. get_scoped lib scope approval_id now in
      if_Apart a (is_empty_text who) (throw value_error) decided (Apart-refl a) (
        digests_then approval_id
          (λ key. decide_key lib status who now key >>= λ _. get_scoped lib scope approval_id now)
          (λ i.
            then_Apart a (decide_key lib status who now (a, i))
              (λ _. get_scoped lib scope approval_id now) (decide_key-Apart status who now i)
              (λ _. get_scoped-Apart approval_id now)))

  decide_as-Apart :
      (approver : TenantScope) (approval_id : String) (status : ApprovalStatus) (now : ℕ)
      → Along (Apart (lib.of_scope scope)) (decide_as lib scope approver approval_id status now)
  unfolding decide_as
  decide_as-Apart approver approval_id status now =
      let a = lib.of_scope scope in
      if_Apart a _ (decide_scoped lib scope approval_id status approver.principal now)
        (throw approval_not_found) (decide_scoped-Apart approval_id status approver.principal now)
        (Apart-refl a)

  require_intent-Apart :
      (x y : ApprovalIntent) → Along (Apart (lib.of_scope scope)) (require_intent lib x y)
  unfolding require_intent
  require_intent-Apart x y =
      let a = lib.of_scope scope in
      if_Apart a _ (pure tt) (throw approval_intent_mismatch) (Apart-refl a) (Apart-refl a)

  consume_key-Apart :
      (intent : ApprovalIntent) (now : ℕ) (i : String)
      → Along
          (Apart (lib.of_scope scope))
          (consume_key lib scope intent now (lib.of_scope scope, i))
  unfolding consume_key
  consume_key-Apart intent now i =
      let a = lib.of_scope scope in
      let write = update_row (a, i) (consume_row now) in
      let approve : ScopedRow → Exec ScopedTable (Unit {0}) =
        λ row. require_approved row.status >>= λ _. write in
      let check : ScopedRow → Exec ScopedTable (Unit {0}) =
        λ row. require_intent lib (scoped_record row scope).intent intent >>= λ _. approve row in
      transaction-Along (Apart a)
        (update_row (a, i) (expire_row now) >>= λ _. select_row (a, i) >>= check) (Apart-refl a)
        (then_Apart a (update_row (a, i) (expire_row now)) (λ _. select_row (a, i) >>= check)
          (update_row-Apart a i (expire_row now))
          (λ _. then_Apart a (select_row (a, i)) check (select_row-Apart a (a, i)) (λ row.
            then_Apart a (require_intent lib (scoped_record row scope).intent intent)
              (λ _. approve row) (require_intent-Apart (scoped_record row scope).intent intent)
              (λ _.
                then_Apart a (require_approved row.status) (λ _. write)
                  (require_approved-Apart a row.status)
                  (λ _. update_row-Apart a i (consume_row now))))))

  consume_scoped-Apart :
      (approval_id : String) (intent : ApprovalIntent) (now : ℕ)
      → Along (Apart (lib.of_scope scope)) (consume_scoped lib scope approval_id intent now)
  unfolding consume_scoped
  consume_scoped-Apart approval_id intent now =
      let a = lib.of_scope scope in
      let used : String × String → Exec ScopedTable ApprovalRecord =
        λ key. consume_key lib scope intent now key >>= λ _. get_scoped lib scope approval_id now in
      then_Apart a (require_matching_scope scope intent)
        (λ _. digests lib scope approval_id >>= used) (require_matching_scope-Apart intent)
        (λ _. digests_then approval_id used (λ i.
          then_Apart a (consume_key lib scope intent now (a, i))
            (λ _. get_scoped lib scope approval_id now) (consume_key-Apart intent now i)
            (λ _. get_scoped-Apart approval_id now)))

  list_scoped-Apart :
      (status : Option ApprovalStatus) (limit now : ℕ)
      → Along (Apart (lib.of_scope scope)) (list_scoped lib scope status limit now)
  unfolding list_scoped
  list_scoped-Apart status limit now =
      let a = lib.of_scope scope in
      if_Apart a _ (throw value_error)
        (expire_scope a now >>= λ _. listed_rows lib scope status limit) (Apart-refl a)
        (then_Apart a (expire_scope a now) (λ _. listed_rows lib scope status limit)
          (expire_scope-Apart a now) (λ _. Apart-refl a))

  -- The table after a call in the scope, which may have raised.
  pub data Call (d : ScopedTable) : ScopedTable → Type 0 where
    requests :
        (intent : ApprovalIntent) (ttl : ℕ) (given : Option String) (fresh : String) (now : ℕ)
        → Call d (request_scoped lib scope intent ttl given fresh now d).1
    gets : (k : String) (now : ℕ) → Call d (get_scoped lib scope k now d).1
    lists :
        (status : Option ApprovalStatus) (limit now : ℕ)
        → Call d (list_scoped lib scope status limit now d).1
    approves : (k who : String) (now : ℕ) → Call d (approve_scoped lib scope k who now d).1
    denies : (k who : String) (now : ℕ) → Call d (deny_scoped lib scope k who now d).1
    approves_as :
        (approver : TenantScope) (k : String) (now : ℕ)
        → Call d (approve_as lib scope approver k now d).1
    denies_as :
        (approver : TenantScope) (k : String) (now : ℕ)
        → Call d (deny_as lib scope approver k now d).1
    consumes :
        (k : String) (intent : ApprovalIntent) (now : ℕ)
        → Call d (consume_scoped lib scope k intent now d).1

  pub data Calls (a : ScopedTable) : ScopedTable → Type 0 where
    here : Calls a a
    next : {b c : ScopedTable} → Calls a b → Call b c → Calls a c

  Call-Apart : {d e : ScopedTable} → Call d e → Apart (lib.of_scope scope) d e
  Call-Apart {d} (requests intent ttl given fresh now) =
      request_scoped-Apart intent ttl given fresh now d
  Call-Apart {d} (gets k now) = get_scoped-Apart k now d
  Call-Apart {d} (lists status limit now) = list_scoped-Apart status limit now d
  Call-Apart {d} (approves k who now) = decide_scoped-Apart k approved who now d
  Call-Apart {d} (denies k who now) = decide_scoped-Apart k denied who now d
  Call-Apart {d} (approves_as approver k now) = decide_as-Apart approver k approved now d
  Call-Apart {d} (denies_as approver k now) = decide_as-Apart approver k denied now d
  Call-Apart {d} (consumes k intent now) = consume_scoped-Apart k intent now d

  pub Calls-Apart : {d e : ScopedTable} → Calls d e → Apart (lib.of_scope scope) d e
  Calls-Apart {d} here = Apart-refl (lib.of_scope scope) d
  Calls-Apart {d} {e} (next {b} run call) =
      Apart-trans (lib.of_scope scope) d b e (Calls-Apart run) (Call-Apart call)
