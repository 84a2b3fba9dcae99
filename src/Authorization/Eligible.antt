-- ===== src/Authorization/Eligible.antt =====
-- src/capabilityhub/authorization.py: which capabilities the grants cover.
use capabilityhub.Base.{
  String, ◌≡◌, refl, sym, ◌∙◌, ◌↔◌, Bool, true, false, ◌||◌, List, [], ◌∷◌, arith,
}
use capabilityhub.Dict.{Dict}
use capabilityhub.Result.{ok}
use capabilityhub.Sets.{has_text, without, is_empty, missing_none}
use capabilityhub.Authorization.{
  Library, PermissionConstraint, supported_permissions, AuthorizationDecision, granted_permissions,
  update, required_by, ordered_reasons, place_reason, permission_reasons, all_reasons,
  decide_authorization, decided, eligible, no_reasons, reason_order,
}

-- A permission that one of the dependencies asks for.
abbrev pub in_any : String → List (List String) → Bool
in_any x [] = false
in_any x (d ∷ ds) = has_text x d || in_any x ds

-- A permission that the manifest or one of its dependencies asks for.
abbrev pub IsRequired : List String → List (List String) → String → Type 0
IsRequired permissions dependencies x = has_text x permissions || in_any x dependencies ≡ true

has_text-update :
    (x : String) (xs required : List String)
    → has_text x (update xs required) ≡ has_text x xs || has_text x required
unfolding update
has_text-update x [] required = refl
has_text-update x (y ∷ xs) required = ground (arith, has_text-update x xs required)

pub has_text-required_by :
    (x : String) (permissions : List String) (dependencies : List (List String))
    → has_text x (required_by permissions dependencies)
      ≡ has_text x permissions || in_any x dependencies
unfolding required_by
has_text-required_by x permissions [] = has_text-update x permissions []
has_text-required_by x permissions (d ∷ ds) =
    ground (
      arith,
      has_text-update x d (required_by permissions ds),
      has_text-required_by x permissions ds,
    )

-- Without arguments there are no reasons exactly when nothing is missing.
pub permissions_iff :
    (grants : Dict String PermissionConstraint) (required : List String)
    → (no_reasons (ordered_reasons (permission_reasons grants required)) ≡ true) ↔ (
        (is_empty (without required supported_permissions) ≡ true)
        × (is_empty (without required (granted_permissions grants)) ≡ true))
unfolding permission_reasons ordered_reasons place_reason reason_order
permissions_iff grants required = ground arith

-- What the two conditions on the lists say of the permissions.
abbrev pub IsCovered : Dict String PermissionConstraint → List String → List (List String) → Type 0
IsCovered grants permissions dependencies =
    (x : String)
    → IsRequired permissions dependencies x
    → (has_text x supported_permissions ≡ true) × (has_text x (granted_permissions grants) ≡ true)

pub IsCovered-iff :
    (grants : Dict String PermissionConstraint) (permissions : List String)
    (dependencies : List (List String))
    → (no_reasons
          (ordered_reasons (permission_reasons grants (required_by permissions dependencies)))
        ≡ true)
      ↔ IsCovered grants permissions dependencies
IsCovered-iff grants permissions dependencies =
    let required = required_by permissions dependencies in
    let lists = permissions_iff grants required in
    let known = missing_none (λ xs. xs) (λ xs x. refl) required supported_permissions in
    let held = missing_none (λ xs. xs) (λ xs x. refl) required (granted_permissions grants) in
    (
      λ e x r.
          let there = has_text-required_by x permissions dependencies ∙ r in
          (known.0 (lists.0 e).0 x there, held.0 (lists.0 e).1 x there),
      λ c. lists.1 (
        known.1
            (λ x there. (c x (sym (has_text-required_by x permissions dependencies) ∙ there)).0),
        held.1 (λ x there. (c x (sym (has_text-required_by x permissions dependencies) ∙ there)).1),
      ),
    )

-- `eligible` always returns, and allows a capability exactly when every permission that it or one of
-- its dependencies asks for is supported and granted.
pub eligible_iff :
    (lib : Library) (grants : Dict String PermissionConstraint) (permissions : List String)
    (dependencies : List (List String))
    → (d : AuthorizationDecision) × (eligible lib grants permissions dependencies ≡ ok d)
      × ((d.allowed ≡ true) ↔ IsCovered grants permissions dependencies)
unfolding decide_authorization all_reasons decided
eligible_iff lib grants permissions dependencies =
    (_, refl, IsCovered-iff grants permissions dependencies)
