-- ===== src/Authorization/Granted.antt =====
-- src/capabilityhub/authorization.py: what the checks of one category find without a reason.
use capabilityhub.Base.{
  String, ◌≡◌, refl, sym, ap, subst, Bool-cases, inl, inr, ◌∙◌, Bool, true, false, not, Option,
  none, some, List, [], ◌∷◌, ◌++◌, arith, text_dec,
}
use capabilityhub.Dict.{Dict, text_key, get}
use capabilityhub.Result.{Result, ok, raise, ◌>>=◌}
use capabilityhub.Sets.{has_text, has_text_first}
use capabilityhub.Authorization.{
  Library, PermissionConstraint, host_of, Reason, Argument, text, other, reason_if, any_grant,
  outside, resolved_reasons, path_reasons, host_reasons, network_reasons, process_reasons,
  secret_reasons, ordered_reasons, no_reasons, secret_alias_not_allowed, path_outside_allowed_roots,
  host_not_allowed, http_method_not_allowed, command_not_allowed, profile_not_allowed,
}
use capabilityhub.Authorization.Reasons.{ordered_none, append_none, reason_if_none}

-- The grant of a permission passes a test.
abbrev pub Grants :
    Dict String PermissionConstraint → (PermissionConstraint → Type 0) → String → Type 0
Grants grants P p = (c : PermissionConstraint) × (get p grants ≡ some c) × P c

pub any_grant_none :
    (f : PermissionConstraint → Bool) (grants : Dict String PermissionConstraint) (ps : List String)
    → any_grant f grants ps ≡ ok false
    → (p : String) → has_text p ps ≡ true
    → Grants grants (λ c. f c ≡ false) p
unfolding any_grant
any_grant_none f grants [] e p there = absurd (cc)
any_grant_none f grants (q ∷ ps) e p there =
    by_grant (any_grant_none f grants ps) (get q grants) refl
  where
    by_grant :
        (any_grant f grants ps ≡ ok false
          → (k : String) → has_text k ps ≡ true
          → Grants grants (λ c. f c ≡ false) k)
        → (o : Option PermissionConstraint) → get q grants ≡ o
        → Grants grants (λ c. f c ≡ false) p
    by_grant later none g = absurd (ground arith)
    by_grant later (some c) g = elim (Bool-cases (f c)) [
      | inl bad ↦ absurd (ground arith)
      | inr good ↦ elim (text_dec q p) [
        | yes same ↦ (c, ap (λ k. get k grants) (sym same) ∙ g, good)
        | no apart ↦ later (ground arith) p (ground arith)
      ]
    ]

pub listed_in :
    (f : PermissionConstraint → Bool) (grants : Dict String PermissionConstraint) (ps : List String)
    → any_grant (λ c. not (f c)) grants ps ≡ ok false
    → (p : String) → has_text p ps ≡ true
    → Grants grants (λ c. f c ≡ true) p
listed_in f grants ps e p there =
    let (c, held, listed) = any_grant_none (λ c. not (f c)) grants ps e p there in
    (c, held, ground arith)

-- A permission has one grant.
pub both_granted :
    (grants : Dict String PermissionConstraint) (P Q : PermissionConstraint → Type 0) (p : String)
    → Grants grants P p
    → Grants grants Q p
    → Grants grants (λ c. P c × Q c) p
both_granted grants P Q p (c, held, left) (d, same, right) =
    let one : d ≡ c = cc in (c, held, (left, subst Q one right))

pub outside_root :
    (lib : Library) (selected : String) (roots : List String)
    → outside lib selected roots ≡ false
    → (root : String) × (has_text root roots ≡ true) × (lib.is_relative_to selected root ≡ true)
unfolding outside
outside_root lib selected [] e = absurd (cc)
outside_root lib selected (root ∷ roots) e = elim (Bool-cases (lib.is_relative_to selected root)) [
  | inl there ↦ (root, has_text_first root roots, there)
  | inr apart ↦
      let (found, listed, inside) = outside_root lib selected roots (ground arith) in
      (found, ground arith, inside)
]

-- One test of the grants, and two.
pub tested : (m : Result Bool) (r : Reason) → (m >>= λ b. ok (reason_if b r)) ≡ ok [] → m ≡ ok false
tested (ok false) r e = refl
tested (ok true) r e = absurd (cc)
tested (raise x) r e = absurd (cc)

pub tested_twice :
    (m n : Result Bool) (r q : Reason)
    → (m >>= λ a. n >>= λ b. ok (ordered_reasons (reason_if a r ++ reason_if b q))) ≡ ok []
    → (m ≡ ok false) × (n ≡ ok false)
tested_twice (ok a) (ok b) r q e =
    let empty = ordered_none (reason_if a r ++ reason_if b q) (ap no_of e) in
    let (left, right) = append_none (reason_if a r) (reason_if b q) empty in
    (ap ok (reason_if_none a r left), ap ok (reason_if_none b q right))
  where
    no_of : Result (List Reason) → Bool
    no_of (ok rs) = no_reasons rs
    no_of (raise x) = true
tested_twice (ok a) (raise x) r q e = absurd (cc)
tested_twice (raise x) n r q e = absurd (cc)

module _ (lib : Library) (grants : Dict String PermissionConstraint) where
  -- The path lies under a root of the permission's grant.
  abbrev pub InRoots : Argument → String → Type 0
  InRoots path p =
      (raw_path : String) × (selected : String) × (path ≡ text raw_path)
      × (lib.is_absolute raw_path ≡ true)
      × (lib.resolve raw_path ≡ ok selected)
      × Grants grants
          (λ c.
            (root : String) × (has_text root c.path_roots ≡ true)
            × (lib.is_relative_to selected root ≡ true))
          p

  -- The host and the method stand in the permission's grant.
  abbrev pub InHosts : Argument → Argument → String → Type 0
  InHosts host method p =
      (raw_host : String) × (raw_method : String) × (selected : String) × (host ≡ text raw_host)
      × (method ≡ text raw_method)
      × (host_of lib raw_host ≡ ok selected)
      × Grants grants
          (λ c.
            (has_text selected c.hosts ≡ true)
            × (has_text (lib.upper raw_method) c.http_methods ≡ true))
          p

  abbrev pub InCommands : Argument → Argument → String → Type 0
  InCommands command profile p =
      (c : String) × (q : String) × (command ≡ text c)
      × (profile ≡ text q)
      × Grants grants (λ g. (has_text c g.commands ≡ true) × (has_text q g.profiles ≡ true)) p

  abbrev pub InAliases : Argument → String → Type 0
  InAliases alias p =
      (a : String) × (alias ≡ text a) × Grants grants (λ c. has_text a c.secret_aliases ≡ true) p

  pub secret_reasons_none :
      (ps : List String) (a : Argument)
      → secret_reasons lib grants ps a ≡ ok []
      → (p : String) → has_text p ps ≡ true
      → InAliases a p
  unfolding secret_reasons
  secret_reasons_none ps other e p there = absurd (cc)
  secret_reasons_none ps (text a) e p there =
      let passed =
        tested (any_grant (λ c. not (has_text a c.secret_aliases)) grants ps)
          secret_alias_not_allowed e in
      (a, refl, listed_in (λ c. has_text a c.secret_aliases) grants ps passed p there)

  pub process_reasons_none :
      (ps : List String) (command profile : Argument)
      → process_reasons lib grants ps command profile ≡ ok []
      → (p : String) → has_text p ps ≡ true
      → InCommands command profile p
  unfolding process_reasons
  process_reasons_none ps other profile e p there = absurd (cc)
  process_reasons_none ps (text c) other e p there = absurd (cc)
  process_reasons_none ps (text c) (text q) e p there =
      let passed =
        tested_twice (any_grant (λ g. not (has_text c g.commands)) grants ps)
          (any_grant (λ g. not (has_text q g.profiles)) grants ps) command_not_allowed
          profile_not_allowed e in
      (
        c,
        q,
        refl,
        refl,
        both_granted grants (λ g. has_text c g.commands ≡ true) (λ g. has_text q g.profiles ≡ true)
            p (listed_in (λ g. has_text c g.commands) grants ps passed.0 p there)
            (listed_in (λ g. has_text q g.profiles) grants ps passed.1 p there),
      )

  pub network_reasons_none :
      (ps : List String) (host method : Argument)
      → network_reasons lib grants ps host method ≡ ok []
      → (p : String) → has_text p ps ≡ true
      → InHosts host method p
  unfolding network_reasons host_reasons
  network_reasons_none ps other method e p there = absurd (cc)
  network_reasons_none ps (text h) other e p there = absurd (cc)
  network_reasons_none ps (text raw_host) (text raw_method) e p there =
      by_host (host_of lib raw_host) refl e
    where
      by_host :
          (r : Result String)
          → host_of lib raw_host ≡ r
          → host_reasons lib grants ps r (lib.upper raw_method) ≡ ok []
          → InHosts (text raw_host) (text raw_method) p
      by_host (raise x) h k = absurd (cc)
      by_host (ok host) h k =
          let method = lib.upper raw_method in
          let passed =
            tested_twice (any_grant (λ g. not (has_text host g.hosts)) grants ps)
              (any_grant (λ g. not (has_text method g.http_methods)) grants ps) host_not_allowed
              http_method_not_allowed k in
          (
            raw_host,
            raw_method,
            host,
            refl,
            refl,
            h,
            both_granted grants (λ g. has_text host g.hosts ≡ true)
                (λ g. has_text method g.http_methods ≡ true) p
                (listed_in (λ g. has_text host g.hosts) grants ps passed.0 p there)
                (listed_in (λ g. has_text method g.http_methods) grants ps passed.1 p there),
          )

  pub path_reasons_none :
      (ps : List String) (path : Argument)
      → path_reasons lib grants ps path ≡ ok []
      → (p : String) → has_text p ps ≡ true
      → InRoots path p
  unfolding path_reasons resolved_reasons
  path_reasons_none ps other e p there = absurd (cc)
  path_reasons_none ps (text raw_path) e p there = elim (Bool-cases (lib.is_absolute raw_path)) [
    | inl absolute ↦ by_path absolute (lib.resolve raw_path) refl (ground arith)
    | inr relative ↦ absurd (ground arith)
  ]
    where
      by_path :
          lib.is_absolute raw_path ≡ true
          → (r : Result String) → lib.resolve raw_path ≡ r
          → resolved_reasons lib grants ps r ≡ ok []
          → InRoots (text raw_path) p
      by_path absolute (raise x) h k = absurd (ground arith)
      by_path absolute (ok selected) h k =
          let (c, held, within) =
            any_grant_none (λ g. outside lib selected g.path_roots) grants ps
              (tested (any_grant (λ g. outside lib selected g.path_roots) grants ps)
                path_outside_allowed_roots k)
              p there in
          (
            raw_path,
            selected,
            refl,
            absolute,
            h,
            (c, held, outside_root lib selected c.path_roots within),
          )
