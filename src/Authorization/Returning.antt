-- ===== src/Authorization/Returning.antt =====
-- src/capabilityhub/authorization.py: the checks of the arguments raise nothing but what `resolve` may
-- raise of the path, since every permission that they look up is granted.
use capabilityhub.Base.{
  String, ◌≡◌, ◌≢◌, subst, ◌⊎◌, refl, sym, ap, ◌∙◌, inl, inr, Bool, true, false, not, Bool-cases,
  some, List, [], ◌∷◌, ◌++◌, arith, text_dec,
}
use capabilityhub.Dict.{Dict, text_key, get}
use capabilityhub.Errors.{Exc, os_error, is_os_error}
use capabilityhub.Result.{Result, ok, raise, ◌>>=◌}
use capabilityhub.Sets.{
  has_text, has_text_first, has_text-common, is_empty, Within, IsSorting, common, without,
  missing_none,
}
use capabilityhub.Authorization.{
  Library, host_of, PermissionConstraint, Reason, Argument, text, other, reason_if, any_grant,
  outside, resolved_reasons, path_reasons, host_reasons, network_reasons, process_reasons,
  secret_reasons, reasons_if, granted_permissions, ordered_reasons, filesystem_permissions,
  network_permissions, process_permissions, secret_permissions, argument, any_raw_secret,
  undeclared_reasons, argument_reasons, secret_value_not_allowed, no_reasons, permission_reasons,
  all_reasons, arguments_invalid, path_outside_allowed_roots, host_not_allowed,
  http_method_not_allowed, command_not_allowed, profile_not_allowed, secret_alias_not_allowed,
}

-- The computation returns.
abbrev pub Returns {ℓ} : {A : Type ℓ} → Result A → Type ℓ
Returns {A = A} m = (a : A) × (m ≡ ok a)

-- The path is one whose `resolve` raises this exception, which is no `OSError`.
abbrev pub Unresolved : Library → Argument → Exc → Type 0
Unresolved lib path e =
    (raw_path : String) × (path ≡ text raw_path)
    × (lib.is_absolute raw_path ≡ true)
    × (lib.resolve raw_path ≡ raise e)
    × (e ≢ os_error)

-- The computation returns, or passes on what `resolve` raises of the path.
abbrev pub Settles {ℓ} : {A : Type ℓ} → Library → Argument → Result A → Type ℓ
Settles lib path m = Returns m ⊎ ((e : Exc) × (m ≡ raise e) × Unresolved lib path e)

granted_get :
    (grants : Dict String PermissionConstraint) (p : String)
    → has_text p (granted_permissions grants) ≡ true
    → (c : PermissionConstraint) × (get p grants ≡ some c)
granted_get [] p h = absurd (cc)
granted_get ((q, c) ∷ grants) p h = elim (text_dec q p) [
  | yes same ↦ (c, ground arith)
  | no apart ↦ let (d, held) = granted_get grants p (ground arith) in (d, ground arith)
]

pub any_grant-Returns :
    (f : PermissionConstraint → Bool) (grants : Dict String PermissionConstraint) (ps : List String)
    → Within ps (granted_permissions grants)
    → Returns (any_grant f grants ps)
unfolding any_grant
any_grant-Returns f grants [] w = (false, refl)
any_grant-Returns f grants (p ∷ ps) w =
    let (b, later) = any_grant-Returns f grants ps (λ x there. w x (ground arith)) in
    let (c, held) = granted_get grants p (w p (has_text_first p ps)) in
    elim (Bool-cases (f c)) [ inl bad ↦ (true, ground arith) | inr good ↦ (b, ground arith) ]

pub bind-Returns {ℓ κ} :
    {A : Type ℓ} {B : Type κ} (m : Result A) (k : A → Result B)
    → Returns m
    → ((a : A) → Returns (k a))
    → Returns (m >>= k)
bind-Returns {A = A} {B = B} m k (a, e) f =
    let (b, h) = f a in (b, ap (λ x. ◌>>=◌ {A = A} {B = B} x k) e ∙ h)

pub bind-Settles {ℓ κ} :
    {A : Type ℓ} {B : Type κ} (lib : Library) (path : Argument) (m : Result A) (k : A → B)
    → Settles lib path m
    → Settles lib path (m >>= λ a. ok (k a))
bind-Settles lib path (ok a) k h = inl (k a, refl)
bind-Settles lib path (raise x) k (inl (_, e)) = absurd (cc)
bind-Settles lib path (raise x) k (inr (e, same, why)) = inr (e, cc, why)

module _ (lib : Library) (grants : Dict String PermissionConstraint) (ps : List String)
    (w : Within ps (granted_permissions grants)) where
  -- One test of the grants, and two.
  once-Returns :
      (f : PermissionConstraint → Bool) (r : Reason)
      → Returns (any_grant f grants ps >>= λ b. ok (reason_if b r))
  once-Returns f r =
      bind-Returns (any_grant f grants ps) (λ b. ok (reason_if b r))
        (any_grant-Returns f grants ps w) (λ b. (reason_if b r, refl))

  twice-Returns :
      (f g : PermissionConstraint → Bool) (r q : Reason)
      → Returns (
          any_grant f grants ps >>= λ a.
          any_grant g grants ps >>= λ b. ok (ordered_reasons (reason_if a r ++ reason_if b q)))
  twice-Returns f g r q =
      bind-Returns (any_grant f grants ps)
        (λ a. any_grant g grants ps >>= λ b. ok (ordered_reasons (reason_if a r ++ reason_if b q)))
        (any_grant-Returns f grants ps w)
        (λ a.
          bind-Returns (any_grant g grants ps)
            (λ b. ok (ordered_reasons (reason_if a r ++ reason_if b q)))
            (any_grant-Returns g grants ps w)
            (λ b. (ordered_reasons (reason_if a r ++ reason_if b q), refl)))

  path_reasons-Settles : (path : Argument) → Settles lib path (path_reasons lib grants ps path)
  unfolding path_reasons resolved_reasons
  path_reasons-Settles other = inl (arguments_invalid ∷ [], refl)
  path_reasons-Settles (text raw_path) = elim (Bool-cases (lib.is_absolute raw_path)) [
    | inl absolute ↦ by_path absolute (lib.resolve raw_path) refl
    | inr relative ↦ inl (arguments_invalid ∷ [], ground arith)
  ]
    where
      by_path :
          lib.is_absolute raw_path ≡ true
          → (r : Result String) → lib.resolve raw_path ≡ r
          → Settles lib (text raw_path) (path_reasons lib grants ps (text raw_path))
      by_path absolute (ok selected) h =
          let (rs, e) =
            once-Returns (λ c. outside lib selected c.path_roots) path_outside_allowed_roots in
          inl (rs, rw (absolute, h) e)
      by_path absolute (raise x) h = elim (Bool-cases (is_os_error x)) [
        | inl caught ↦ inl (path_outside_allowed_roots ∷ [], rw (absolute, h, caught) refl)
        | inr passed ↦
            inr
              (x, rw (absolute, h, passed) refl, (raw_path, refl, absolute, h, λ same. absurd (cc)))
      ]

  host_reasons-Returns :
      (r : Result String) (method : String) → Returns (host_reasons lib grants ps r method)
  unfolding host_reasons
  host_reasons-Returns (raise x) method = (host_not_allowed ∷ [], refl)
  host_reasons-Returns (ok host) method =
      twice-Returns (λ c. not (has_text host c.hosts)) (λ c. not (has_text method c.http_methods))
        host_not_allowed http_method_not_allowed

  network_reasons-Returns :
      (host method : Argument) → Returns (network_reasons lib grants ps host method)
  unfolding network_reasons
  network_reasons-Returns other method = (arguments_invalid ∷ [], refl)
  network_reasons-Returns (text h) other = (arguments_invalid ∷ [], refl)
  network_reasons-Returns (text h) (text m) = host_reasons-Returns (host_of lib h) (lib.upper m)

  process_reasons-Returns :
      (command profile : Argument) → Returns (process_reasons lib grants ps command profile)
  unfolding process_reasons
  process_reasons-Returns other profile = (arguments_invalid ∷ [], refl)
  process_reasons-Returns (text c) other = (arguments_invalid ∷ [], refl)
  process_reasons-Returns (text c) (text q) =
      twice-Returns (λ g. not (has_text c g.commands)) (λ g. not (has_text q g.profiles))
        command_not_allowed profile_not_allowed

  secret_reasons-Returns : (alias : Argument) → Returns (secret_reasons lib grants ps alias)
  unfolding secret_reasons
  secret_reasons-Returns other = (arguments_invalid ∷ [], refl)
  secret_reasons-Returns (text a) =
      once-Returns (λ c. not (has_text a c.secret_aliases)) secret_alias_not_allowed

  reasons_if-Returns : (m : Result (List Reason)) → Returns m → Returns (reasons_if lib ps m)
  unfolding reasons_if
  reasons_if-Returns m r = elim (Bool-cases (is_empty ps)) [
    | inl none_required ↦ ([], ground arith)
    | inr required ↦ let (rs, e) = r in (rs, ground arith)
  ]

  reasons_if-Settles :
      (path : Argument) (m : Result (List Reason))
      → Settles lib path m
      → Settles lib path (reasons_if lib ps m)
  unfolding reasons_if
  reasons_if-Settles path m h = elim (Bool-cases (is_empty ps)) [
    | inl none_required ↦ inl ([], ground arith)
    | inr required ↦ subst (Settles lib path) (ground arith) h
  ]

-- The sorted permissions of a category are among any texts that the required ones are among.
sorted-Within :
    (lib : Library)
    → IsSorting lib.sorted
    → (required known : List String) → Within required known
    → (category : List String) → Within (lib.sorted (common required category)) known
sorted-Within lib sorting required known w category x there =
    let both =
      sym (sorting (common required category) x ∙ has_text-common x required category) ∙ there in
    w x (ground arith)

-- Four computations of which only the first may raise, and what is made of their results.
four-Settles :
    (lib : Library) (path : Argument) (m n o q : Result (List Reason)) (xs : List Reason)
    → Settles lib path m
    → Returns n
    → Returns o
    → Returns q
    → Settles lib path
        (m >>= λ a. n >>= λ b. o >>= λ c. q >>= λ d. ok (ordered_reasons (xs ++ a ++ b ++ c ++ d)))
four-Settles lib path (ok a) (ok b) (ok c) (ok d) xs r s t u =
    inl (ordered_reasons (xs ++ a ++ b ++ c ++ d), refl)
four-Settles lib path (raise x) n o q xs (inl (_, e)) s t u = absurd (cc)
four-Settles lib path (raise x) n o q xs (inr (e, same, why)) s t u = inr (e, cc, why)
four-Settles lib path (ok a) (raise x) o q xs r (_, e) t u = absurd (cc)
four-Settles lib path (ok a) (ok b) (raise x) q xs r s (_, e) u = absurd (cc)
four-Settles lib path (ok a) (ok b) (ok c) (raise x) xs r s t (_, e) = absurd (cc)

argument_reasons-Settles :
    (lib : Library) (grants : Dict String PermissionConstraint) (required : List String)
    (arguments : Dict String Argument)
    → IsSorting lib.sorted
    → Within required (granted_permissions grants)
    → Settles lib (argument "path" arguments) (argument_reasons lib grants required arguments)
unfolding argument_reasons
argument_reasons-Settles lib grants required arguments sorting w =
    let filesystem = lib.sorted (common required filesystem_permissions) in
    let network = lib.sorted (common required network_permissions) in
    let process = lib.sorted (common required process_permissions) in
    let secrets = lib.sorted (common required secret_permissions) in
    let path = argument "path" arguments in
    let host = argument "host" arguments in
    let method = argument "http_method" arguments in
    let command = argument "command" arguments in
    let profile = argument "profile" arguments in
    let alias = argument "secret_alias" arguments in
    let known = sorted-Within lib sorting required (granted_permissions grants) w in
    let w0 = known filesystem_permissions in
    let w1 = known network_permissions in
    let w2 = known process_permissions in
    let w3 = known secret_permissions in
    four-Settles lib path (reasons_if lib filesystem (path_reasons lib grants filesystem path))
      (reasons_if lib network (network_reasons lib grants network host method))
      (reasons_if lib process (process_reasons lib grants process command profile))
      (reasons_if lib secrets (secret_reasons lib grants secrets alias))
      (undeclared_reasons lib filesystem network process secrets arguments
        ++ reason_if (any_raw_secret lib arguments) secret_value_not_allowed)
      (reasons_if-Settles lib grants filesystem w0 path (path_reasons lib grants filesystem path)
        (path_reasons-Settles lib grants filesystem w0 path))
      (reasons_if-Returns lib grants network w1 (network_reasons lib grants network host method)
        (network_reasons-Returns lib grants network w1 host method))
      (reasons_if-Returns lib grants process w2 (process_reasons lib grants process command profile)
        (process_reasons-Returns lib grants process w2 command profile))
      (reasons_if-Returns lib grants secrets w3 (secret_reasons lib grants secrets alias)
        (secret_reasons-Returns lib grants secrets w3 alias))

pub all_reasons-Settles :
    (lib : Library) (grants : Dict String PermissionConstraint) (required : List String)
    (arguments : Dict String Argument)
    → IsSorting lib.sorted
    → Settles lib (argument "path" arguments) (all_reasons lib grants required (some arguments))
unfolding all_reasons permission_reasons ordered_reasons
all_reasons-Settles lib grants required arguments sorting =
    elim (Bool-cases (no_reasons (permission_reasons grants required))) [
      | inl none_missing ↦
          let missing : is_empty (without required (granted_permissions grants)) ≡ true =
            ground arith in
          let w =
            (missing_none (λ xs. xs) (λ xs x. refl) required (granted_permissions grants)).0
              missing in
          let checked : argument_reasons lib grants required arguments
              ≡ all_reasons lib grants required (some arguments) =
            ground arith in
          subst (Settles lib (argument "path" arguments)) checked
            (argument_reasons-Settles lib grants required arguments sorting w)
      | inr missing ↦ inl (permission_reasons grants required, ground arith)
    ]
