-- ===== src/Authorization/Tests.antt =====
-- src/capabilityhub/authorization.py: calls within the grants and outside, and the theorems at them.
use capabilityhub.Base.{
  String, ◌≡◌, ◌↔◌, ◌⊎◌, refl, true, false, none, some, [], ◌∷◌, text_dec, is_space,
}
use capabilityhub.Dict.{Dict}
use capabilityhub.Errors.{Exc, value_error}
use capabilityhub.Result.{ok, raise}
use capabilityhub.Sets.{without, common}
use capabilityhub.Authorization.{
  Library, PermissionConstraint, any_space, is_label, ends_label, split_labels, is_safe_name,
  safe_rest, name_of, root_of, encoded_host, host_of, permission_category, is_populated,
  others_empty, check_constraint, each, normalize_constraint, normalize_grants, create_authorizer,
  Argument, argument, text, other, reason_order, place_reason, ordered_reasons, any_grant, outside,
  resolved_reasons, path_reasons, host_reasons, network_reasons, process_reasons, secret_reasons,
  any_raw_secret, reasons_if, undeclared_reasons, argument_reasons, update, required_by,
  permission_reasons, all_reasons, decided, decide_authorization, eligible, authorize,
  AuthorizationDecision, authorization_allow, host_not_allowed, secret_value_not_allowed,
}
use capabilityhub.Authorization.Eligible.{IsCovered, IsRequired, eligible_iff}
use capabilityhub.Authorization.Returning.{Unresolved}
use capabilityhub.Authorization.Permitted.{IsPermitted, authorize_allowed}

program : Unit {0}
unfolding text_dec is_space without common any_space is_label ends_label split_labels is_safe_name
    safe_rest name_of root_of encoded_host host_of permission_category is_populated others_empty
    check_constraint each normalize_constraint normalize_grants reason_order place_reason
    ordered_reasons any_grant outside resolved_reasons path_reasons host_reasons network_reasons
    process_reasons secret_reasons any_raw_secret reasons_if undeclared_reasons argument_reasons
    update required_by permission_reasons all_reasons decided decide_authorization
program = tt

abbrev library : Library
library = record {
  is_absolute = λ s. true;
  resolve = λ s. ok s;
  is_relative_to = λ a b. true;
  casefold = λ s. s;
  upper = λ s. s;
  ip_address = λ s. none;
  idna = λ s. some s;
  sorted = λ xs. xs;
}

abbrev hosts_only : PermissionConstraint
hosts_only = record {
  path_roots = [];
  hosts = "a.com" ∷ [];
  http_methods = "GET" ∷ [];
  commands = [];
  profiles = [];
  secret_aliases = [];
}

abbrev grants : Dict String PermissionConstraint
grants = ("network", hosts_only) ∷ []

created : create_authorizer library grants ≡ ok grants
unfolding program
created = refl

wrong_category : create_authorizer library (("secret", hosts_only) ∷ []) ≡ raise value_error
unfolding program
wrong_category = refl

abbrev request_to : String → Dict String Argument
request_to host = ("host", text host) ∷ ("http_method", text "GET") ∷ []

abbrev allow_network : AuthorizationDecision
allow_network = record {
  allowed = true;
  reason_codes = authorization_allow ∷ [];
  required_permissions = "network" ∷ [];
  effective_permissions = "network" ∷ [];
}

allows_host : authorize library grants ("network" ∷ []) [] (request_to "a.com.") ≡ ok allow_network
unfolding program
allows_host = refl

denies_host :
    authorize library grants ("network" ∷ []) [] (("token", other) ∷ request_to "b.com")
    ≡ ok (record {
      allowed = false;
      reason_codes = host_not_allowed ∷ secret_value_not_allowed ∷ [];
      required_permissions = "network" ∷ [];
      effective_permissions = "network" ∷ [];
    })
unfolding program
denies_host = refl

-- A library whose `resolve` raises for every path, as Python's does for a path with a null character.
abbrev raising : Library
raising = record library { resolve = λ s. raise value_error }

abbrev rooted : Dict String PermissionConstraint
rooted =
    ("filesystem", record hosts_only { path_roots = "/a" ∷ []; hosts = []; http_methods = [] }) ∷ []

-- authorize raises instead of denying the call.
null_path_raises :
    authorize raising rooted ("filesystem" ∷ []) [] (("path", text "/a/x") ∷ []) ≡ raise value_error
unfolding program
null_path_raises = refl

authorize_allowed_example :
    ((d : AuthorizationDecision) × (authorize library grants
          ("network" ∷ [])
          []
          (request_to "a.com.")
        ≡ ok d)
      × ((d.allowed ≡ false)
          ⊎ (IsCovered grants ("network" ∷ []) []
              × (any_raw_secret library (request_to "a.com.") ≡ false)
              × ((p : String)
                  → IsRequired ("network" ∷ []) [] p
                  → IsPermitted library grants (request_to "a.com.") p))))
    ⊎ ((e : Exc) × (authorize library grants ("network" ∷ []) [] (request_to "a.com.") ≡ raise e)
        × Unresolved library (argument "path" (request_to "a.com.")) e)
authorize_allowed_example =
    authorize_allowed library grants ("network" ∷ []) [] (request_to "a.com.") (λ xs x. refl)

eligible_iff_example :
    (d : AuthorizationDecision) × (eligible library grants ("process" ∷ []) (("network" ∷ []) ∷ [])
      ≡ ok d)
    × ((d.allowed ≡ true) ↔ IsCovered grants ("process" ∷ []) (("network" ∷ []) ∷ []))
eligible_iff_example = eligible_iff library grants ("process" ∷ []) (("network" ∷ []) ∷ [])
