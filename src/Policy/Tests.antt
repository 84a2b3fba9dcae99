-- ===== src/Policy/Tests.antt =====
-- src/capabilityhub/policy.py: a write that needs approval, and the theorem at it.
use capabilityhub.Base.{◌≡◌, refl, ◌↔◌, true, false, [], ◌∷◌, text_dec}
use capabilityhub.Models.{reversible_write, irreversible}
use capabilityhub.Sets.{Within, without}
use capabilityhub.Policy.{allow, approval_required, PolicyContext, decide}
use capabilityhub.Policy.Decisions.{allow_iff}

abbrev context : PolicyContext
context = record {
  granted_permissions = "net" ∷ "files" ∷ [];
  approved = false;
  allow_irreversible = false;
}

needs_approval :
    (decide (λ xs. xs) ("files" ∷ []) reversible_write false context).outcome ≡ approval_required
unfolding decide without text_dec
needs_approval = refl

allow_iff_example :
    ((decide (λ xs. xs) ("files" ∷ []) reversible_write false context).outcome ≡ allow) ↔ (
      Within ("files" ∷ []) context.granted_permissions
      × (reversible_write ≡ irreversible → context.allow_irreversible ≡ true)
      × (false ≡ true → context.approved ≡ true)
      × (reversible_write ≡ reversible_write → context.approved ≡ true))
allow_iff_example =
    allow_iff (λ xs. xs) ("files" ∷ []) reversible_write false context (λ xs x. refl)
