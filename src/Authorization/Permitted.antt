-- ===== src/Authorization/Permitted.antt =====
-- src/capabilityhub/authorization.py: what an allowed call was granted.
use capabilityhub.Base.{
  ◌⊎◌, inl, inr, Bool-cases, String, ◌≡◌, refl, ap, ◌∙◌, Bool, true, false, ◌&&◌, some, List, [],
  ◌∷◌, ◌++◌, arith, if◌then◌else◌,
}
use capabilityhub.Dict.{Dict}
use capabilityhub.Errors.{Exc}
use capabilityhub.Result.{Result, ok, raise, ◌>>=◌}
use capabilityhub.Sets.{has_text, has_text-common, common, IsSorting}
use capabilityhub.Authorization.{
  Library, PermissionConstraint, filesystem_permissions, network_permissions, process_permissions,
  secret_permissions, Reason, Argument, argument, reason_if, path_reasons, network_reasons,
  process_reasons, secret_reasons, any_raw_secret, reasons_if, undeclared_reasons, argument_reasons,
  secret_value_not_allowed, ordered_reasons, AuthorizationDecision, required_by, no_reasons,
  permission_reasons, all_reasons, decide_authorization, authorize, decided,
}
use capabilityhub.Authorization.Reasons.{ordered_none, append_none, reason_if_none}
use capabilityhub.Authorization.Eligible.{
  IsRequired, IsCovered, has_text-required_by, IsCovered-iff,
}
use capabilityhub.Authorization.Returning.{Unresolved, bind-Settles, all_reasons-Settles}
use capabilityhub.Authorization.Granted.{
  InRoots, InHosts, InCommands, InAliases, path_reasons_none, network_reasons_none,
  process_reasons_none, secret_reasons_none,
}

-- No reason comes out of the arguments only if none came from any category.
all_none :
    (m n o q : Result (List Reason)) (xs ys rs : List Reason)
    → (m >>= λ a.
        n >>= λ b. o >>= λ c. q >>= λ d. ok (ordered_reasons (xs ++ ys ++ a ++ b ++ c ++ d)))
      ≡ ok rs
    → no_reasons (ordered_reasons rs) ≡ true
    → (ys ≡ []) × (m ≡ ok []) × (n ≡ ok []) × (o ≡ ok []) × (q ≡ ok [])
all_none (ok a) (ok b) (ok c) (ok d) xs ys rs e none_left =
    let same : ordered_reasons (xs ++ ys ++ a ++ b ++ c ++ d) ≡ rs = cc in
    let inner =
      ordered_none (xs ++ ys ++ a ++ b ++ c ++ d)
        (ap no_reasons (same ∙ ordered_none rs none_left)) in
    let (most, last) = append_none (xs ++ ys ++ a ++ b ++ c) d inner in
    let (three, third) = append_none (xs ++ ys ++ a ++ b) c most in
    let (two, second) = append_none (xs ++ ys ++ a) b three in
    let (one, first) = append_none (xs ++ ys) a two in
    let (none_before, given) = append_none xs ys one in
    (given, ap ok first, ap ok second, ap ok third, ap ok last)
all_none (raise x) n o q xs ys rs e none_left = absurd (cc)
all_none (ok a) (raise x) o q xs ys rs e none_left = absurd (cc)
all_none (ok a) (ok b) (raise x) q xs ys rs e none_left = absurd (cc)
all_none (ok a) (ok b) (ok c) (raise x) xs ys rs e none_left = absurd (cc)

module _ (lib : Library) (sorting : IsSorting lib.sorted) where
  -- A required permission of a category is among the sorted ones.
  in_category :
      (required category : List String) (p : String)
      → has_text p required ≡ true
      → has_text p category ≡ true
      → has_text p (lib.sorted (common required category)) ≡ true
  in_category required category p r c =
      let both : has_text p required && has_text p category ≡ true = ground arith in
      sorting (common required category) p ∙ has_text-common p required category ∙ both

reasons_if_none :
    (lib : Library) (ps : List String) (m : Result (List Reason)) (p : String)
    → reasons_if lib ps m ≡ ok []
    → has_text p ps ≡ true
    → m ≡ ok []
unfolding reasons_if
reasons_if_none lib [] m p e there = absurd (cc)
reasons_if_none lib (q ∷ ps) m p e there = e

-- An allowed call has arguments that the grant of every permission of each category permits.
abbrev pub IsPermitted :
    Library → Dict String PermissionConstraint → Dict String Argument → String → Type 0
IsPermitted lib grants arguments p =
    (has_text p filesystem_permissions ≡ true → InRoots lib grants (argument "path" arguments) p)
    × (has_text p network_permissions ≡ true
        → InHosts lib grants (argument "host" arguments) (argument "http_method" arguments) p)
    × (has_text p process_permissions ≡ true
        → InCommands lib grants (argument "command" arguments) (argument "profile" arguments) p)
    × (has_text p secret_permissions ≡ true
        → InAliases lib grants (argument "secret_alias" arguments) p)

argument_reasons_none :
    (lib : Library) (grants : Dict String PermissionConstraint) (required : List String)
    (arguments : Dict String Argument) (rs : List Reason)
    → IsSorting lib.sorted
    → argument_reasons lib grants required arguments ≡ ok rs
    → no_reasons (ordered_reasons rs) ≡ true
    → (any_raw_secret lib arguments ≡ false)
      × ((p : String) → has_text p required ≡ true → IsPermitted lib grants arguments p)
unfolding argument_reasons
argument_reasons_none lib grants required arguments rs sorting e none_left =
    let filesystem = lib.sorted (common required filesystem_permissions) in
    let network = lib.sorted (common required network_permissions) in
    let process = lib.sorted (common required process_permissions) in
    let secrets = lib.sorted (common required secret_permissions) in
    let path = argument "path" arguments in
    let host = argument "host" arguments in
    let method = argument "http_method" arguments in
    let command = argument "command" arguments in
    let profile = argument "profile" arguments in
    let alias = argument "secret_alias" arguments in
    let (raw, of_path, of_host, of_process, of_secret) =
      all_none (reasons_if lib filesystem (path_reasons lib grants filesystem path))
        (reasons_if lib network (network_reasons lib grants network host method))
        (reasons_if lib process (process_reasons lib grants process command profile))
        (reasons_if lib secrets (secret_reasons lib grants secrets alias))
        (undeclared_reasons lib filesystem network process secrets arguments)
        (reason_if (any_raw_secret lib arguments) secret_value_not_allowed) rs e none_left in
    (
      reason_if_none (any_raw_secret lib arguments) secret_value_not_allowed raw,
      λ p r. (
        λ c.
            let there = in_category lib sorting required filesystem_permissions p r c in
            path_reasons_none lib grants filesystem path
              (reasons_if_none lib filesystem (path_reasons lib grants filesystem path) p of_path
                there)
              p there,
        λ c.
            let there = in_category lib sorting required network_permissions p r c in
            network_reasons_none lib grants network host method
              (reasons_if_none lib network (network_reasons lib grants network host method) p
                of_host there)
              p there,
        λ c.
            let there = in_category lib sorting required process_permissions p r c in
            process_reasons_none lib grants process command profile
              (reasons_if_none lib process (process_reasons lib grants process command profile) p
                of_process there)
              p there,
        λ c.
            let there = in_category lib sorting required secret_permissions p r c in
            secret_reasons_none lib grants secrets alias
              (reasons_if_none lib secrets (secret_reasons lib grants secrets alias) p of_secret
                there)
              p there,
      ),
    )

-- The decision without an error comes from reasons.
reasons_of :
    (lib : Library) (grants : Dict String PermissionConstraint) (required : List String)
    (m : Result (List Reason)) (d : AuthorizationDecision)
    → (m >>= λ reasons. ok (decided lib grants required reasons)) ≡ ok d
    → d.allowed ≡ true
    → (rs : List Reason) × (m ≡ ok rs) × (no_reasons (ordered_reasons rs) ≡ true)
unfolding decided
reasons_of lib grants required (ok rs) d e allowed = (rs, refl, ap allows e ∙ allowed)
  where
    allows : Result AuthorizationDecision → Bool
    allows (ok x) = x.allowed
    allows (raise x) = false
reasons_of lib grants required (raise x) d e allowed = absurd (cc)

-- With arguments, no reason is left only if the permissions gave none.
none_of_permissions :
    (lib : Library) (grants : Dict String PermissionConstraint) (required : List String)
    (arguments : Dict String Argument) (rs : List Reason)
    → all_reasons lib grants required (some arguments) ≡ ok rs
    → no_reasons (ordered_reasons rs) ≡ true
    → (no_reasons (ordered_reasons (permission_reasons grants required)) ≡ true)
      × (argument_reasons lib grants required arguments ≡ ok rs)
unfolding all_reasons ordered_reasons
none_of_permissions lib grants required arguments rs e none_left =
    by_reasons (permission_reasons grants required) e
  where
    by_reasons :
        (ps : List Reason)
        → (if no_reasons ps then argument_reasons lib grants required arguments else ok ps) ≡ ok rs
        → (no_reasons (ordered_reasons ps) ≡ true)
          × (argument_reasons lib grants required arguments ≡ ok rs)
    by_reasons [] h = (refl, h)
    by_reasons (q ∷ ps) h =
        let same : q ∷ ps ≡ rs = cc in let gone = ordered_none rs none_left in absurd (cc)

-- What it means that a call is allowed.
allowed_permits :
    (lib : Library) (grants : Dict String PermissionConstraint) (permissions : List String)
    (dependencies : List (List String)) (arguments : Dict String Argument)
    (d : AuthorizationDecision)
    → IsSorting lib.sorted
    → authorize lib grants permissions dependencies arguments ≡ ok d
    → d.allowed ≡ true
    → IsCovered grants permissions dependencies
      × (any_raw_secret lib arguments ≡ false)
      × ((p : String) → IsRequired permissions dependencies p → IsPermitted lib grants arguments p)
unfolding decide_authorization
allowed_permits lib grants permissions dependencies arguments d sorting e allowed =
    let required = required_by permissions dependencies in
    let (rs, found, none_left) =
      reasons_of lib grants required (all_reasons lib grants required (some arguments)) d e
        allowed in
    let (covered, given) = none_of_permissions lib grants required arguments rs found none_left in
    let (raw, permitted) =
      argument_reasons_none lib grants required arguments rs sorting given none_left in
    (
      (IsCovered-iff grants permissions dependencies).0 covered,
      raw,
      λ p r. permitted p (has_text-required_by p permissions dependencies ∙ r),
    )

-- If `sorted` returns the texts that it is given, authorize returns a decision or passes on an
-- exception that is no OSError and that resolving the path of the arguments raised. A decision denies
-- the call unless every permission that the capability or one of its dependencies asks for is
-- supported and granted, no argument is named like a raw secret, and the arguments keep to the grant
-- of each of these permissions: the path lies under one of its roots, the host and the method, the
-- command and the profile, or the alias stand in it.
pub authorize_allowed :
    (lib : Library) (grants : Dict String PermissionConstraint) (permissions : List String)
    (dependencies : List (List String)) (arguments : Dict String Argument)
    → IsSorting lib.sorted
    → ((d : AuthorizationDecision) × (authorize lib grants permissions dependencies arguments
          ≡ ok d)
        × ((d.allowed ≡ false)
            ⊎ (IsCovered grants permissions dependencies
                × (any_raw_secret lib arguments ≡ false)
                × ((p : String)
                    → IsRequired permissions dependencies p
                    → IsPermitted lib grants arguments p))))
      ⊎ ((e : Exc) × (authorize lib grants permissions dependencies arguments ≡ raise e)
          × Unresolved lib (argument "path" arguments) e)
unfolding decide_authorization decided
authorize_allowed lib grants permissions dependencies arguments sorting =
    let required = required_by permissions dependencies in
    elim (bind-Settles lib (argument "path" arguments)
      (all_reasons lib grants required (some arguments)) (decided lib grants required)
      (all_reasons-Settles lib grants required arguments sorting)) [
        | inl (d, e) ↦ inl (
          d,
          e,
          elim (Bool-cases d.allowed) [
            | inl allowed ↦
                inr (
                  allowed_permits lib grants permissions dependencies arguments d sorting e allowed)
            | inr denied ↦ inl denied
          ],
        )
        | inr raised ↦ inr raised
      ]
