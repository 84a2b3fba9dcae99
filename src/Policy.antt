-- ===== src/Policy.antt =====
-- src/capabilityhub/policy.py: `ReferencePolicy`, over the parts of the manifest and the operation
-- that it reads. `sorted` of a set is a parameter.
pub mod Decisions
mod Tests
use capabilityhub.Base.{String, Bool, true, false, ◌&&◌, not, List, [], ◌∷◌, if◌then◌else◌}
use capabilityhub.Models.{SideEffect, none, read, reversible_write, irreversible}
use capabilityhub.Sets.{without, is_empty}

pub data PolicyOutcome : Type 0 where
  allow deny approval_required : PolicyOutcome

pub record PolicyDecision : Type 0 where
  pub outcome : PolicyOutcome
  pub reason_codes : List String

pub record PolicyContext : Type 0 where
  pub granted_permissions : List String
  pub approved : Bool
  pub allow_irreversible : Bool

abbrev pub is_irreversible : SideEffect → Bool
is_irreversible irreversible = true
is_irreversible _ = false

abbrev pub is_reversible_write : SideEffect → Bool
is_reversible_write reversible_write = true
is_reversible_write _ = false

-- `decide`, of the manifest's permissions and the operation's side effect and need of approval.
unfoldable pub decide :
    (List String → List String) → List String → SideEffect → Bool → PolicyContext → PolicyDecision
decide sorted permissions side_effect requires_approval context =
    let missing = sorted (without permissions context.granted_permissions) in
    if not (is_empty missing)
    then record { outcome = deny; reason_codes = "missing_permission" ∷ missing }
    else if is_irreversible side_effect && not context.allow_irreversible
    then record { outcome = deny; reason_codes = "irreversible_disallowed" ∷ [] }
    else if requires_approval && not context.approved
    then record { outcome = approval_required; reason_codes = "operation_requires_approval" ∷ [] }
    else if is_reversible_write side_effect && not context.approved
    then record { outcome = approval_required; reason_codes = "write_requires_approval" ∷ [] }
    else record { outcome = allow; reason_codes = "policy_allow" ∷ [] }
