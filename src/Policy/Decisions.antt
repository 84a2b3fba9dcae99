-- ===== src/Policy/Decisions.antt =====
-- src/capabilityhub/policy.py: what the policy allows.
use capabilityhub.Base.{String, ◌≡◌, ◌↔◌, Bool, true, List, arith}
use capabilityhub.Models.{SideEffect, reversible_write, irreversible}
use capabilityhub.Sets.{IsSorting, Within, missing_none}
use capabilityhub.Policy.{allow, PolicyContext, decide}

-- If `sorted` returns the texts that it is given, an operation is allowed exactly when all permissions
-- of the manifest are granted; it is not irreversible or that is allowed; and it is approved if it
-- asks for approval or is a write that can be taken back.
pub allow_iff :
    (sorted : List String → List String) (permissions : List String) (side_effect : SideEffect)
    (requires_approval : Bool) (context : PolicyContext)
    → IsSorting sorted
    → ((decide sorted permissions side_effect requires_approval context).outcome ≡ allow) ↔ (
        Within permissions context.granted_permissions
        × (side_effect ≡ irreversible → context.allow_irreversible ≡ true)
        × (requires_approval ≡ true → context.approved ≡ true)
        × (side_effect ≡ reversible_write → context.approved ≡ true))
unfolding decide
allow_iff sorted permissions side_effect requires_approval context s =
    let all = missing_none sorted s permissions context.granted_permissions in
    (
      λ e. (all.0 (ground arith), λ i. ground arith, λ r. ground arith, λ w. ground arith),
      λ (w, i, r, t). let granted = all.1 w in ground arith,
    )
