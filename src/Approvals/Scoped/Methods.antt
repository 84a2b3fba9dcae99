-- ===== src/Approvals/Scoped/Methods.antt =====
-- src/capabilityhub/approval_store.py: the methods of `ScopedApprovalStore`.
use capabilityhub.Base.{
  ℕ, zero, suc, String, Bool, true, false, ◌&&◌, ◌||◌, Option, none, some, List, [], ◌∷◌, ltb, ◌==◌,
  if◌then◌else◌, ite, text_dec,
}
use capabilityhub.Errors.{value_error}
use capabilityhub.Result.{ok}
use capabilityhub.Exec.{Exec, pure, throw, transaction, ◌>>=◌, ◌>>◌}
use capabilityhub.Approvals.Records.{
  ApprovalStatus, pending, approved, denied, consumed, expired, ApprovalIntent, ApprovalRecord,
  is_empty_text, identifier_or, approval_not_found, approval_intent_mismatch, approval_expired,
  approval_already_consumed, approval_not_approved, approval_invalid_transition,
}
use capabilityhub.Approvals.Store.{same_intent, same_status}
use capabilityhub.Approvals.Scoped.Rows.{
  TenantScope, ScopedTable, scoped_record, pending_row, expire_row, decide_row, consume_row,
  update_row, expire_scope, select_row, insert_row, place_row,
}

-- What the store computes with its key, and the fingerprint of an intent.
pub record Digests : Type 0 where
  pub of_scope : TenantScope → String
  pub of_approval : String → String → String
  pub fingerprint : ApprovalIntent → String

abbrev pub text_is : String → String → Bool
text_is a b = ite (text_dec a b) true false

-- `_require_matching_scope`
unfoldable pub require_matching_scope : TenantScope → ApprovalIntent → Exec ScopedTable (Unit {0})
require_matching_scope scope intent =
    if text_is scope.tenant intent.tenant_id
      && text_is scope.principal intent.principal_id
      && text_is scope.session intent.session_id
      && text_is scope.task intent.task_id
    then pure tt
    else throw approval_not_found

-- The check of the status in `_decide`.
unfoldable pub require_pending : ApprovalStatus → Exec ScopedTable (Unit {0})
require_pending pending = pure tt
require_pending _ = throw approval_invalid_transition

-- The check of the status in `consume`.
unfoldable pub require_approved : ApprovalStatus → Exec ScopedTable (Unit {0})
require_approved approved = pure tt
require_approved expired = throw approval_expired
require_approved consumed = throw approval_already_consumed
require_approved _ = throw approval_not_approved

-- The rows of a scope, in order, that the `SELECT` of `list` asks for.
unfoldable pub scope_rows : String → Option ApprovalStatus → ScopedTable → ScopedTable
scope_rows scope_digest status [] = []
scope_rows scope_digest status ((key, r) ∷ d) =
    let rest = scope_rows scope_digest status d in
    if text_is key.0 scope_digest && elim status [ none ↦ true | some s ↦ same_status r.status s ]
    then place_row (key, r) rest
    else rest

-- The first rows, as records of the scope.
abbrev pub take_records : ℕ → TenantScope → ScopedTable → List ApprovalRecord
take_records zero scope d = []
take_records (suc n) scope [] = []
take_records (suc n) scope ((_, r) ∷ d) = scoped_record r scope ∷ take_records n scope d

module _ (lib : Digests) where
  -- `_digests`
  unfoldable pub digests : TenantScope → String → Exec ScopedTable (String × String)
  digests scope approval_id =
      if is_empty_text approval_id
      then throw value_error
      else pure (lib.of_scope scope, lib.of_approval (lib.of_scope scope) approval_id)

  -- `get`, of a key.
  unfoldable pub read_row : TenantScope → ℕ → String × String → Exec ScopedTable ApprovalRecord
  read_row scope now key = do
    update_row key (expire_row now)
    row ← select_row key
    pure (scoped_record row scope)

  -- `get`
  unfoldable pub get_scoped : TenantScope → String → ℕ → Exec ScopedTable ApprovalRecord
  get_scoped scope approval_id now = do key ← digests scope approval_id; read_row scope now key

  -- `request` of a checked identifier.
  unfoldable pub request_row :
      TenantScope → ApprovalIntent → ℕ → String → ℕ → Exec ScopedTable ApprovalRecord
  request_row scope intent ttl_seconds identifier now = do
    key ← digests scope identifier
    insert_row key (pending_row identifier intent now ttl_seconds)
    get_scoped scope identifier now

  -- `request`, with the identifier that it makes up where none is given.
  unfoldable pub request_scoped :
      TenantScope
      → ApprovalIntent
      → ℕ
      → Option String
      → String
      → ℕ
      → Exec ScopedTable ApprovalRecord
  request_scoped scope intent ttl_seconds approval_id fresh now =
      let identifier = identifier_or approval_id fresh in
      require_matching_scope scope intent >>= λ _.
      if ttl_seconds == 0
      then throw value_error
      else if is_empty_text identifier
      then throw value_error
      else request_row scope intent ttl_seconds identifier now

  -- The transaction of `_decide`.
  unfoldable pub decide_key :
      ApprovalStatus → String → ℕ → String × String → Exec ScopedTable (Unit {0})
  decide_key status decided_by now key = transaction (do
    update_row key (expire_row now)
    row ← select_row key
    require_pending row.status
    update_row key (decide_row status now decided_by))

  -- `_decide`
  unfoldable pub decide_scoped :
      TenantScope → String → ApprovalStatus → String → ℕ → Exec ScopedTable ApprovalRecord
  decide_scoped scope approval_id status decided_by now =
      if is_empty_text decided_by then throw value_error else do
        key ← digests scope approval_id
        decide_key status decided_by now key
        get_scoped scope approval_id now

  -- `approve` and `deny`
  abbrev pub approve_scoped : TenantScope → String → String → ℕ → Exec ScopedTable ApprovalRecord
  approve_scoped scope approval_id = decide_scoped scope approval_id approved

  abbrev pub deny_scoped : TenantScope → String → String → ℕ → Exec ScopedTable ApprovalRecord
  deny_scoped scope approval_id = decide_scoped scope approval_id denied

  -- `_decide_as`
  unfoldable pub decide_as :
      TenantScope → TenantScope → String → ApprovalStatus → ℕ → Exec ScopedTable ApprovalRecord
  decide_as requester approver approval_id status now =
      if text_is requester.tenant approver.tenant
      then decide_scoped requester approval_id status approver.principal now
      else throw approval_not_found

  -- `approve_as` and `deny_as`
  abbrev pub approve_as : TenantScope → TenantScope → String → ℕ → Exec ScopedTable ApprovalRecord
  approve_as requester approver approval_id = decide_as requester approver approval_id approved

  abbrev pub deny_as : TenantScope → TenantScope → String → ℕ → Exec ScopedTable ApprovalRecord
  deny_as requester approver approval_id = decide_as requester approver approval_id denied

  -- The comparison of the intents in `consume`.
  unfoldable pub require_intent : ApprovalIntent → ApprovalIntent → Exec ScopedTable (Unit {0})
  require_intent stored given =
      if same_intent lib.fingerprint stored given then pure tt else throw approval_intent_mismatch

  -- The transaction of `consume`.
  unfoldable pub consume_key :
      TenantScope → ApprovalIntent → ℕ → String × String → Exec ScopedTable (Unit {0})
  consume_key scope intent now key = transaction (do
    update_row key (expire_row now)
    row ← select_row key
    require_intent (scoped_record row scope).intent intent
    require_approved row.status
    update_row key (consume_row now))

  -- `consume`
  unfoldable pub consume_scoped :
      TenantScope → String → ApprovalIntent → ℕ → Exec ScopedTable ApprovalRecord
  consume_scoped scope approval_id intent now = do
    require_matching_scope scope intent
    key ← digests scope approval_id
    consume_key scope intent now key
    get_scoped scope approval_id now

  -- The rows that `list` reads.
  abbrev pub listed_rows :
      TenantScope → Option ApprovalStatus → ℕ → Exec ScopedTable (List ApprovalRecord)
  listed_rows scope status limit d =
      (ok (take_records limit scope (scope_rows (lib.of_scope scope) status d)), d)

  -- `list`
  unfoldable pub list_scoped :
      TenantScope → Option ApprovalStatus → ℕ → ℕ → Exec ScopedTable (List ApprovalRecord)
  list_scoped scope status limit now =
      if ltb limit 1 || ltb 500 limit
      then throw value_error
      else do expire_scope (lib.of_scope scope) now; listed_rows scope status limit
