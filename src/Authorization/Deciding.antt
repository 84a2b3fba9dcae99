-- ===== src/Authorization/Deciding.antt =====
-- src/capabilityhub/authorization.py: the decision of `ParameterAuthorizer`, over the permissions of
-- the manifest and of its dependencies.
use capabilityhub.Base.{
  String, Bool, true, false, not, Option, none, some, List, [], ◌∷◌, ◌++◌, if◌then◌else◌,
}
use capabilityhub.Dict.{Dict}
use capabilityhub.Result.{Result, ok, ◌>>=◌}
use capabilityhub.Sets.{has_text, without, common, is_empty}
use capabilityhub.Authorization.Names.{Library}
use capabilityhub.Authorization.Constraints.{PermissionConstraint, supported_permissions}
use capabilityhub.Authorization.Arguments.{
  Reason, unknown_permission, permission_not_granted, authorization_allow, Argument, reason_if,
  ordered_reasons, argument_reasons,
}

pub record AuthorizationDecision : Type 0 where
  pub allowed : Bool
  pub reason_codes : List Reason
  pub required_permissions : List String
  pub effective_permissions : List String

-- `granted_permissions`
abbrev pub granted_permissions : Dict String PermissionConstraint → List String
granted_permissions [] = []
granted_permissions ((permission, _) ∷ grants) = permission ∷ granted_permissions grants

-- `required.update(permissions)`
unfoldable pub update : List String → List String → List String
update [] required = required
update (x ∷ xs) required =
    let rest = update xs required in if has_text x rest then rest else x ∷ rest

-- `required`, of the manifest and its dependencies.
unfoldable pub required_by : List String → List (List String) → List String
required_by permissions [] = update permissions []
required_by permissions (d ∷ dependencies) = update d (required_by permissions dependencies)

abbrev pub no_reasons : List Reason → Bool
no_reasons [] = true
no_reasons (r ∷ rs) = false

abbrev pub codes_or_allow : List Reason → List Reason
codes_or_allow [] = authorization_allow ∷ []
codes_or_allow (r ∷ rs) = r ∷ rs

-- The reasons that the permissions give, without the arguments.
unfoldable pub permission_reasons : Dict String PermissionConstraint → List String → List Reason
permission_reasons grants required =
    reason_if (not (is_empty (without required supported_permissions))) unknown_permission
    ++ reason_if (not (is_empty (without required (granted_permissions grants))))
        permission_not_granted

module _ (lib : Library) where
  -- The reasons of `_decide`.
  unfoldable pub all_reasons :
      Dict String PermissionConstraint
      → List String
      → Option (Dict String Argument)
      → Result (List Reason)
  all_reasons grants required none = ok (permission_reasons grants required)
  all_reasons grants required (some arguments) =
      let reasons = permission_reasons grants required in
      if no_reasons reasons then argument_reasons lib grants required arguments else ok reasons

  -- The decision for some reasons.
  unfoldable pub decided :
      Dict String PermissionConstraint → List String → List Reason → AuthorizationDecision
  decided grants required reasons = record {
    allowed = no_reasons (ordered_reasons reasons);
    reason_codes = codes_or_allow (ordered_reasons reasons);
    required_permissions = lib.sorted (common required supported_permissions);
    effective_permissions = lib.sorted (common required (granted_permissions grants));
  }

  -- `_decide`
  unfoldable pub decide_authorization :
      Dict String PermissionConstraint
      → List String
      → List (List String)
      → Option (Dict String Argument)
      → Result AuthorizationDecision
  decide_authorization grants permissions dependencies arguments =
      let required = required_by permissions dependencies in
      all_reasons grants required arguments >>= λ reasons. ok (decided grants required reasons)

  -- `eligible` and `authorize`
  abbrev pub eligible :
      Dict String PermissionConstraint
      → List String
      → List (List String)
      → Result AuthorizationDecision
  eligible grants permissions dependencies =
      decide_authorization grants permissions dependencies none

  abbrev pub authorize :
      Dict String PermissionConstraint
      → List String
      → List (List String)
      → Dict String Argument
      → Result AuthorizationDecision
  authorize grants permissions dependencies arguments =
      decide_authorization grants permissions dependencies (some arguments)
