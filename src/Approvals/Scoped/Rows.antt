-- ===== src/Approvals/Scoped/Rows.antt =====
-- src/capabilityhub/approval_store.py: the rows of the scoped store, and its SQL statements.
use capabilityhub.Base.{
  ℕ, ◌+◌, String, Bool, ◌&&◌, ◌||◌, Option, none, some, [], ◌∷◌, ltb, leb, ◌==◌, if◌then◌else◌, ite,
  text_dec, codes, codes_before,
}
use capabilityhub.Dict.{Dict, text_key, pair_key, get, put}
use capabilityhub.Dict.Rows.{alter}
use capabilityhub.Errors.{value_error}
use capabilityhub.Result.{ok, raise}
use capabilityhub.Exec.{Exec}
use capabilityhub.Approvals.Records.{
  ApprovalStatus, pending, approved, consumed, expired, ApprovalIntent, ApprovalRecord,
  approval_not_found, may_expire,
}

-- `TenantScope` of tenancy.py, normalised.
pub record TenantScope : Type 0 where
  pub tenant : String
  pub principal : String
  pub session : String
  pub task : String

pub record ScopedRow : Type 0 where
  pub approval_id : String
  pub revision : String
  pub operation : String
  pub arguments_digest : String
  pub side_effect : String
  pub policy_revision : String
  pub status : ApprovalStatus
  pub created_at : ℕ
  pub expires_at : ℕ
  pub decided_at : Option ℕ
  pub decided_by : Option String
  pub consumed_at : Option ℕ

-- By the digests of the scope and of the identifier.
abbrev pub ScopedTable : Type 0
ScopedTable = Dict (String × String) ScopedRow

-- `_scoped_record`
unfoldable pub scoped_record : ScopedRow → TenantScope → ApprovalRecord
scoped_record row scope = record {
  approval_id = row.approval_id;
  intent = record {
    revision = row.revision;
    operation = row.operation;
    arguments_digest = row.arguments_digest;
    tenant_id = scope.tenant;
    principal_id = scope.principal;
    session_id = scope.session;
    task_id = scope.task;
    side_effect = row.side_effect;
    policy_revision = row.policy_revision;
  };
  status = row.status;
  created_at = row.created_at;
  expires_at = row.expires_at;
  decided_at = row.decided_at;
  decided_by = row.decided_by;
  consumed_at = row.consumed_at;
}

-- A new row of `request`.
abbrev pub pending_row : String → ApprovalIntent → ℕ → ℕ → ScopedRow
pending_row identifier intent now ttl_seconds = record {
  approval_id = identifier;
  revision = intent.revision;
  operation = intent.operation;
  arguments_digest = intent.arguments_digest;
  side_effect = intent.side_effect;
  policy_revision = intent.policy_revision;
  status = pending;
  created_at = now;
  expires_at = now + ttl_seconds;
  decided_at = none;
  decided_by = none;
  consumed_at = none;
}

-- One row of the `UPDATE` of `_expire`.
unfoldable pub expire_row : ℕ → ScopedRow → ScopedRow
expire_row now r =
    if may_expire r.status && leb r.expires_at now then record r { status = expired } else r

-- One row of the `UPDATE` of `_decide`.
unfoldable pub decide_row : ApprovalStatus → ℕ → String → ScopedRow → ScopedRow
decide_row status now decided_by r = elim r.status [
  | pending ↦ record r { status = status; decided_at = some now; decided_by = some decided_by }
  | _ ↦ r
]

-- One row of the `UPDATE` of `consume`.
unfoldable pub consume_row : ℕ → ScopedRow → ScopedRow
consume_row now r = elim r.status [
  | approved ↦ record r { status = consumed; consumed_at = some now }
  | _ ↦ r
]

abbrev pub update_row : String × String → (ScopedRow → ScopedRow) → Exec ScopedTable (Unit {0})
update_row key f d = (ok tt, alter key f d)

-- `_expire` of a whole scope.
abbrev pub expire_rows : String → ℕ → ScopedTable → ScopedTable
expire_rows scope_digest now [] = []
expire_rows scope_digest now ((key, r) ∷ d) =
    (key, ite (text_dec key.0 scope_digest) (expire_row now r) r) ∷ expire_rows scope_digest now d

abbrev pub expire_scope : String → ℕ → Exec ScopedTable (Unit {0})
expire_scope scope_digest now d = (ok tt, expire_rows scope_digest now d)

-- `SELECT … WHERE scope_digest = ? AND approval_digest = ?`, and the error where no row is there.
unfoldable pub select_row : String × String → Exec ScopedTable ScopedRow
select_row key d = elim (get key d) [ none ↦ (raise approval_not_found, d) | some r ↦ (ok r, d) ]

-- The `INSERT` of `request`.
unfoldable pub insert_row : String × String → ScopedRow → Exec ScopedTable (Unit {0})
insert_row key r d = elim (get key d) [
  | none ↦ (ok tt, put key r d)
  | some _ ↦ (raise value_error, d)
]

-- `ORDER BY created_at DESC, approval_digest DESC`
abbrev pub row_before : (String × String) × ScopedRow → (String × String) × ScopedRow → Bool
row_before a b =
    ltb b.1.created_at a.1.created_at
    || a.1.created_at == b.1.created_at && codes_before (codes b.0.1) (codes a.0.1)

unfoldable pub place_row : (String × String) × ScopedRow → ScopedTable → ScopedTable
place_row x [] = x ∷ []
place_row x (y ∷ ys) = let rest = place_row x ys in if row_before x y then x ∷ y ∷ ys else y ∷ rest
