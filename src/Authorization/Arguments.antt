-- ===== src/Authorization/Arguments.antt =====
-- src/capabilityhub/authorization.py: why the arguments of a call lie outside the grants.
use capabilityhub.Base.{
  ℕ, String, Bool, true, false, ◌&&◌, ◌||◌, not, none, some, List, [], ◌∷◌, ◌++◌, ltb, ◌==◌,
  if◌then◌else◌,
}
use capabilityhub.Dict.{Dict, text_key, get, contains}
use capabilityhub.Errors.{key_error, is_os_error}
use capabilityhub.Result.{Result, ok, raise, ◌>>=◌}
use capabilityhub.Sets.{has_text, common, is_empty}
use capabilityhub.Authorization.Names.{Library, host_of}
use capabilityhub.Authorization.Constraints.{
  PermissionConstraint, filesystem_permissions, network_permissions, process_permissions,
  secret_permissions,
}

-- The codes of the reasons, in the order of `_REASON_ORDER`.
pub data Reason : Type 0 where
  unknown_permission permission_not_granted permission_constraint_missing : Reason
  arguments_invalid privilege_not_declared path_outside_allowed_roots : Reason
  host_not_allowed http_method_not_allowed command_not_allowed : Reason
  profile_not_allowed secret_value_not_allowed secret_alias_not_allowed : Reason
  authorization_allow : Reason

-- `_REASON_ORDER.get(value, 999)`
unfoldable pub reason_order : Reason → ℕ
reason_order unknown_permission = 0
reason_order permission_not_granted = 1
reason_order permission_constraint_missing = 2
reason_order arguments_invalid = 3
reason_order privilege_not_declared = 4
reason_order path_outside_allowed_roots = 5
reason_order host_not_allowed = 6
reason_order http_method_not_allowed = 7
reason_order command_not_allowed = 8
reason_order profile_not_allowed = 9
reason_order secret_value_not_allowed = 10
reason_order secret_alias_not_allowed = 11
reason_order authorization_allow = 999

-- A reason into a list in order, once.
unfoldable pub place_reason : Reason → List Reason → List Reason
place_reason r [] = r ∷ []
place_reason r (q ∷ rs) =
    let rest = place_reason r rs in
    if ltb (reason_order r) (reason_order q)
    then r ∷ q ∷ rs
    else if reason_order r == reason_order q
    then q ∷ rs
    else q ∷ rest

-- `_ordered_reasons`
unfoldable pub ordered_reasons : List Reason → List Reason
ordered_reasons [] = []
ordered_reasons (r ∷ rs) = place_reason r (ordered_reasons rs)

-- The value of an argument: a text, or another JSON value. A missing one counts as another.
pub data Argument : Type 0 where
  text : String → Argument
  other : Argument

abbrev pub argument : String → Dict String Argument → Argument
argument name arguments = elim (get name arguments) [ none ↦ other | some a ↦ a ]

abbrev pub reason_if : Bool → Reason → List Reason
reason_if b r = if b then r ∷ [] else []

abbrev pub raw_secret_fields : List String
raw_secret_fields =
    "api_key" ∷ "authorization" ∷ "credential" ∷ "credentials" ∷ "secret" ∷ "secret_value" ∷ "token"
    ∷ []

-- `any(… for permission in permissions)`, where a permission that is not granted is a `KeyError`.
unfoldable pub any_grant :
    (PermissionConstraint → Bool) → Dict String PermissionConstraint → List String → Result Bool
any_grant f grants [] = ok false
any_grant f grants (p ∷ ps) =
    let rest = any_grant f grants ps in
    elim (get p grants) [ none ↦ raise key_error | some c ↦ if f c then ok true else rest ]

module _ (lib : Library) where
  -- `not any(selected.is_relative_to(Path(root)) for root in roots)`
  unfoldable pub outside : String → List String → Bool
  outside selected [] = true
  outside selected (root ∷ roots) = not (lib.is_relative_to selected root) && outside selected roots

  -- Of what `resolve` raises, only an `OSError` is caught.
  unfoldable pub resolved_reasons :
      Dict String PermissionConstraint → List String → Result String → Result (List Reason)
  resolved_reasons grants permissions (raise e) =
      if is_os_error e then ok (path_outside_allowed_roots ∷ []) else raise e
  resolved_reasons grants permissions (ok selected) = do
    missing ← any_grant (λ c. outside selected c.path_roots) grants permissions
    ok (reason_if missing path_outside_allowed_roots)

  -- `_path_reasons`
  unfoldable pub path_reasons :
      Dict String PermissionConstraint → List String → Argument → Result (List Reason)
  path_reasons grants permissions other = ok (arguments_invalid ∷ [])
  path_reasons grants permissions (text raw_path) =
      if lib.is_absolute raw_path
      then resolved_reasons grants permissions (lib.resolve raw_path)
      else ok (arguments_invalid ∷ [])

  unfoldable pub host_reasons :
      Dict String PermissionConstraint → List String → Result String → String → Result (List Reason)
  host_reasons grants permissions (raise _) method = ok (host_not_allowed ∷ [])
  host_reasons grants permissions (ok host) method = do
    no_host ← any_grant (λ c. not (has_text host c.hosts)) grants permissions
    no_method ← any_grant (λ c. not (has_text method c.http_methods)) grants permissions
    ok (
        ordered_reasons
          (reason_if no_host host_not_allowed ++ reason_if no_method http_method_not_allowed))

  -- `_network_reasons`
  unfoldable pub network_reasons :
      Dict String PermissionConstraint → List String → Argument → Argument → Result (List Reason)
  network_reasons grants permissions (text raw_host) (text raw_method) =
      host_reasons grants permissions (host_of lib raw_host) (lib.upper raw_method)
  network_reasons grants permissions _ _ = ok (arguments_invalid ∷ [])

  -- `_process_reasons`
  unfoldable pub process_reasons :
      Dict String PermissionConstraint → List String → Argument → Argument → Result (List Reason)
  process_reasons grants permissions (text command) (text profile) = do
    no_command ← any_grant (λ c. not (has_text command c.commands)) grants permissions
    no_profile ← any_grant (λ c. not (has_text profile c.profiles)) grants permissions
    ok (
        ordered_reasons
          (reason_if no_command command_not_allowed ++ reason_if no_profile profile_not_allowed))
  process_reasons grants permissions _ _ = ok (arguments_invalid ∷ [])

  -- `_secret_reasons`
  unfoldable pub secret_reasons :
      Dict String PermissionConstraint → List String → Argument → Result (List Reason)
  secret_reasons grants permissions other = ok (arguments_invalid ∷ [])
  secret_reasons grants permissions (text alias) = do
    no_alias ← any_grant (λ c. not (has_text alias c.secret_aliases)) grants permissions
    ok (reason_if no_alias secret_alias_not_allowed)

  -- `any(str(name).casefold() in _RAW_SECRET_FIELDS for name in arguments)`
  unfoldable pub any_raw_secret : Dict String Argument → Bool
  any_raw_secret [] = false
  any_raw_secret ((name, _) ∷ arguments) =
      has_text (lib.casefold name) raw_secret_fields || any_raw_secret arguments

  -- The reasons that one category of permissions gives, if it is required.
  unfoldable pub reasons_if : List String → Result (List Reason) → Result (List Reason)
  reasons_if permissions m = if is_empty permissions then ok [] else m

  -- The arguments that belong to a permission that the capability does not declare.
  unfoldable pub undeclared_reasons :
      List String → List String → List String → List String → Dict String Argument → List Reason
  undeclared_reasons filesystem network process secrets arguments =
      reason_if (contains "path" arguments && is_empty filesystem) privilege_not_declared
      ++ reason_if
          ((contains "host" arguments || contains "http_method" arguments) && is_empty network)
          privilege_not_declared
      ++ reason_if
          ((contains "command" arguments || contains "profile" arguments) && is_empty process)
          privilege_not_declared
      ++ reason_if (contains "secret_alias" arguments && is_empty secrets) privilege_not_declared

  -- `_argument_reasons`
  unfoldable pub argument_reasons :
      Dict String PermissionConstraint → List String → Dict String Argument → Result (List Reason)
  argument_reasons grants required arguments =
      let filesystem = lib.sorted (common required filesystem_permissions) in
      let network = lib.sorted (common required network_permissions) in
      let process = lib.sorted (common required process_permissions) in
      let secrets = lib.sorted (common required secret_permissions) in
      do
        of_path ← reasons_if filesystem (path_reasons grants filesystem (argument "path" arguments))
        of_host ← reasons_if network (
            network_reasons grants network (argument "host" arguments)
              (argument "http_method" arguments))
        of_process ← reasons_if process (
            process_reasons grants process (argument "command" arguments)
              (argument "profile" arguments))
        of_secret ←
            reasons_if secrets (secret_reasons grants secrets (argument "secret_alias" arguments))
        ok (
            ordered_reasons (
              undeclared_reasons filesystem network process secrets arguments
              ++ reason_if (any_raw_secret arguments) secret_value_not_allowed
              ++ of_path
              ++ of_host
              ++ of_process
              ++ of_secret))
