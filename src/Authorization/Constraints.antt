-- ===== src/Authorization/Constraints.antt =====
-- src/capabilityhub/authorization.py: the permissions, the constraint of a grant, and the constructor
-- of the authorizer, which normalises its grants.
use capabilityhub.Base.{String, Bool, true, ◌&&◌, not, List, [], ◌∷◌, ◌++◌, map, if◌then◌else◌}
use capabilityhub.Dict.{Dict, text_key, put}
use capabilityhub.Errors.{value_error}
use capabilityhub.Result.{Result, ok, raise_if, ◌>>=◌, ◌>>◌}
use capabilityhub.Sets.{has_text, without, is_empty}
use capabilityhub.Authorization.Names.{Library, name_of, root_of, host_of}

abbrev pub filesystem_permissions : List String
filesystem_permissions = "filesystem" ∷ "filesystem.read" ∷ "filesystem.write" ∷ []

abbrev pub network_permissions : List String
network_permissions = "network" ∷ "network.http" ∷ []

abbrev pub process_permissions : List String
process_permissions = "process" ∷ "process.execute" ∷ []

abbrev pub secret_permissions : List String
secret_permissions = "secret" ∷ "secret.use" ∷ []

abbrev pub unconstrained_permissions : List String
unconstrained_permissions = "content.sensitive" ∷ []

abbrev pub supported_permissions : List String
supported_permissions =
    filesystem_permissions ++ network_permissions ++ process_permissions ++ secret_permissions
    ++ unconstrained_permissions

abbrev pub supported_methods : List String
supported_methods = "GET" ∷ "HEAD" ∷ "POST" ∷ "PUT" ∷ "PATCH" ∷ "DELETE" ∷ "OPTIONS" ∷ []

pub record PermissionConstraint : Type 0 where
  pub path_roots : List String
  pub hosts : List String
  pub http_methods : List String
  pub commands : List String
  pub profiles : List String
  pub secret_aliases : List String

pub data PermissionCategory : Type 0 where
  filesystem network process secret unconstrained : PermissionCategory

-- `_permission_category`
unfoldable pub permission_category : String → PermissionCategory
permission_category permission =
    if has_text permission filesystem_permissions
    then filesystem
    else if has_text permission network_permissions
    then network
    else if has_text permission process_permissions
    then process
    else if has_text permission secret_permissions
    then secret
    else unconstrained

-- `populated[category]`
unfoldable pub is_populated : PermissionCategory → PermissionConstraint → Bool
is_populated filesystem c = not (is_empty c.path_roots)
is_populated network c = not (is_empty c.hosts) && not (is_empty c.http_methods)
is_populated process c = not (is_empty c.commands) && not (is_empty c.profiles)
is_populated secret c = not (is_empty c.secret_aliases)
is_populated unconstrained c =
    is_empty c.path_roots
    && is_empty c.hosts
    && is_empty c.http_methods
    && is_empty c.commands
    && is_empty c.profiles
    && is_empty c.secret_aliases

-- The fields that the category does not allow are empty: since those that it allows are not, this is
-- `populated_values == allowed_fields`.
unfoldable pub others_empty : PermissionCategory → PermissionConstraint → Bool
others_empty filesystem c =
    is_empty c.hosts
    && is_empty c.http_methods
    && is_empty c.commands
    && is_empty c.profiles
    && is_empty c.secret_aliases
others_empty network c =
    is_empty c.path_roots && is_empty c.commands && is_empty c.profiles && is_empty c.secret_aliases
others_empty process c =
    is_empty c.path_roots
    && is_empty c.hosts
    && is_empty c.http_methods
    && is_empty c.secret_aliases
others_empty secret c =
    is_empty c.path_roots
    && is_empty c.hosts
    && is_empty c.http_methods
    && is_empty c.commands
    && is_empty c.profiles
others_empty unconstrained c = true

-- The end of `_normalize_constraint`.
unfoldable pub check_constraint :
    PermissionCategory → PermissionConstraint → Result PermissionConstraint
check_constraint category c = do
  raise_if (not (is_empty (without c.http_methods supported_methods))) value_error
  raise_if (not (is_populated category c)) value_error
  raise_if (not (others_empty category c)) value_error
  ok c

-- A tuple or a frozenset of what a function gives for each value.
unfoldable pub each : (String → Result String) → List String → Result (List String)
each f [] = ok []
each f (x ∷ xs) = do y ← f x; ys ← each f xs; ok (y ∷ ys)

module _ (lib : Library) where
  -- `_normalize_constraint`
  unfoldable pub normalize_constraint : String → PermissionConstraint → Result PermissionConstraint
  normalize_constraint permission constraint = do
    roots ← each (root_of lib) constraint.path_roots
    hosts ← each (host_of lib) constraint.hosts
    commands ← each name_of constraint.commands
    profiles ← each name_of constraint.profiles
    aliases ← each name_of constraint.secret_aliases
    check_constraint (permission_category permission) (record {
      path_roots = roots;
      hosts = hosts;
      http_methods = map lib.upper constraint.http_methods;
      commands = commands;
      profiles = profiles;
      secret_aliases = aliases;
    })

  unfoldable pub normalize_grants :
      Dict String PermissionConstraint
      → Dict String PermissionConstraint
      → Result (Dict String PermissionConstraint)
  normalize_grants [] normalized = ok normalized
  normalize_grants ((permission, constraint) ∷ grants) normalized = do
    raise_if (not (has_text permission supported_permissions)) value_error
    c ← normalize_constraint permission constraint
    normalize_grants grants (put permission c normalized)

  -- `ParameterAuthorizer.__init__`
  abbrev pub create_authorizer :
      Dict String PermissionConstraint → Result (Dict String PermissionConstraint)
  create_authorizer grants = normalize_grants grants []
