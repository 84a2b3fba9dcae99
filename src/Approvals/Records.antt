-- ===== src/Approvals/Records.antt =====
-- src/capabilityhub/approval_store.py: the records of both stores, their checks and their errors.
use capabilityhub.Base.{
  ℕ, ◌+◌, String, Bool, true, false, ◌&&◌, ◌||◌, not, Option, none, some, List, [], ◌∷◌, leb, ◌==◌,
  if◌then◌else◌, ite, text_dec, length, codes,
}
use capabilityhub.Errors.{Exc, hub_error, approval, value_error}
use capabilityhub.Result.{Result, ok, raise}

pub data ApprovalStatus : Type 0 where
  pending approved denied consumed expired : ApprovalStatus

pub record ApprovalIntent : Type 0 where
  pub revision : String
  pub operation : String
  pub arguments_digest : String
  pub tenant_id : String
  pub principal_id : String
  pub session_id : String
  pub task_id : String
  pub side_effect : String
  pub policy_revision : String

pub record ApprovalRecord : Type 0 where
  pub approval_id : String
  pub intent : ApprovalIntent
  pub status : ApprovalStatus
  pub created_at : ℕ
  pub expires_at : ℕ
  pub decided_at : Option ℕ
  pub decided_by : Option String
  pub consumed_at : Option ℕ

-- `not text`
abbrev pub is_empty_text : String → Bool
is_empty_text s = ite (text_dec s "") true false

-- `char in "0123456789abcdef"`, of all characters.
abbrev pub all_hex : List ℕ → Bool
all_hex [] = true
all_hex (c ∷ cs) = (leb 48 c && leb c 57 || leb 97 c && leb c 102) && all_hex cs

-- `ApprovalIntent.__post_init__`
unfoldable pub create_intent : ApprovalIntent → Result ApprovalIntent
create_intent i =
    if is_empty_text i.revision
      || is_empty_text i.operation
      || is_empty_text i.tenant_id
      || is_empty_text i.principal_id
      || is_empty_text i.session_id
      || is_empty_text i.task_id
      || is_empty_text i.side_effect
      || is_empty_text i.policy_revision
      || not (length (codes i.arguments_digest) == 64)
      || not (all_hex (codes i.arguments_digest))
    then raise value_error
    else ok i

-- `ApprovalIntent.from_arguments`
unfoldable pub from_arguments :
    {A : Type 0} (arguments_digest : A → String) (revision operation : String) (arguments : A)
    (tenant_id principal_id session_id task_id side_effect policy_revision : String)
    → Result ApprovalIntent
from_arguments arguments_digest revision operation arguments tenant_id principal_id session_id
      task_id side_effect policy_revision =
    create_intent (record {
      revision = revision;
      operation = operation;
      arguments_digest = arguments_digest arguments;
      tenant_id = tenant_id;
      principal_id = principal_id;
      session_id = session_id;
      task_id = task_id;
      side_effect = side_effect;
      policy_revision = policy_revision;
    })

abbrev pub approval_not_found : Exc
approval_not_found = hub_error "approval_not_found" approval

abbrev pub approval_intent_mismatch : Exc
approval_intent_mismatch = hub_error "approval_intent_mismatch" approval

abbrev pub approval_expired : Exc
approval_expired = hub_error "approval_expired" approval

abbrev pub approval_already_consumed : Exc
approval_already_consumed = hub_error "approval_already_consumed" approval

abbrev pub approval_not_approved : Exc
approval_not_approved = hub_error "approval_not_approved" approval

abbrev pub approval_invalid_transition : Exc
approval_invalid_transition = hub_error "approval_invalid_transition" approval

-- `status IN ('pending', 'approved')`
abbrev pub may_expire : ApprovalStatus → Bool
may_expire pending = true
may_expire approved = true
may_expire _ = false

-- One row of the `UPDATE` of `_expire`.
unfoldable pub expire_record : ℕ → ApprovalRecord → ApprovalRecord
expire_record now r =
    if may_expire r.status && leb r.expires_at now then record r { status = expired } else r

-- A new row of `request`.
abbrev pub pending_record : String → ApprovalIntent → ℕ → ℕ → ApprovalRecord
pending_record identifier intent now ttl_seconds = record {
  approval_id = identifier;
  intent = intent;
  status = pending;
  created_at = now;
  expires_at = now + ttl_seconds;
  decided_at = none;
  decided_by = none;
  consumed_at = none;
}

-- `approval_id or f"apr_{uuid4().hex}"`, of the text that the right side makes.
abbrev pub identifier_or : Option String → String → String
identifier_or none fresh = fresh
identifier_or (some given) fresh = if is_empty_text given then fresh else given

-- One row of the `UPDATE` of `_decide`.
unfoldable pub decide_record : ApprovalStatus → ℕ → String → ApprovalRecord → ApprovalRecord
decide_record status now decided_by r = elim r.status [
  | pending ↦ record r { status = status; decided_at = some now; decided_by = some decided_by }
  | _ ↦ r
]

-- One row of the `UPDATE` of `consume`.
unfoldable pub consume_record : ℕ → ApprovalRecord → ApprovalRecord
consume_record now r = elim r.status [
  | approved ↦ record r { status = consumed; consumed_at = some now }
  | _ ↦ r
]
