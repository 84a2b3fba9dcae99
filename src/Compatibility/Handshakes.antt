-- ===== src/Compatibility/Handshakes.antt =====
-- src/capabilityhub/compatibility.py: when two handshakes are compatible.
use capabilityhub.Base.{
  String, ◌≡◌, sym, subst, ◌↔◌, inl, inr, Bool, true, false, List, [], ◌∷◌, arith, Bool-cases,
  text_dec,
}
use capabilityhub.Sets.{has_text, IsSorting, Within, has_text_first, missing_none}
use capabilityhub.Compatibility.{FeatureHandshake, first_shared, is_none, decide_compatibility}

-- Both lists have this text.
abbrev pub Shared : List String → List String → Type 0
Shared xs ys = (x : String) × (has_text x xs ≡ true) × (has_text x ys ≡ true)

-- Where the first list begins with a text of the second, that is the one.
first_shared-Shared : (xs ys : List String) → is_none (first_shared xs ys) ≡ false → Shared xs ys
unfolding first_shared
first_shared-Shared [] ys h = absurd (ground arith)
first_shared-Shared (z ∷ xs) ys h = elim (Bool-cases (has_text z ys)) [
  | inl both ↦ (z, has_text_first z xs, both)
  | inr only ↦ let (x, a, b) = first_shared-Shared xs ys (ground arith) in (x, ground arith, b)
]

Shared-first_shared :
    (xs ys : List String) (x : String)
    → has_text x xs ≡ true
    → has_text x ys ≡ true
    → is_none (first_shared xs ys) ≡ false
unfolding first_shared
Shared-first_shared [] ys x a b = absurd (ground arith)
Shared-first_shared (z ∷ xs) ys x a b = elim (Bool-cases (has_text z ys)) [
  | inl both ↦ ground arith
  | inr only ↦ elim (text_dec z x) [
    | yes same ↦ absurd (clash (subst (λ y. has_text y ys ≡ true) (sym same) b) only)
    | no other ↦ let later = Shared-first_shared xs ys x (ground arith) b in ground arith
  ]
]
  where
    clash : {c : Bool} → c ≡ true → c ≡ false → ⊥
    clash t f = cc

-- Two handshakes are compatible exactly when they share an API version and each supports every
-- feature that the other requires, if `sorted` returns the texts that it is given.
pub compatible_iff :
    (sorted : List String → List String) (client server : FeatureHandshake)
    → IsSorting sorted
    → ((decide_compatibility sorted client server).compatible ≡ true) ↔ (
        Shared client.api_versions server.api_versions
        × Within client.required_features server.supported_features
        × Within server.required_features client.supported_features)
unfolding decide_compatibility
compatible_iff sorted client server s =
    let c = missing_none sorted s client.required_features server.supported_features in
    let v = missing_none sorted s server.required_features client.supported_features in
    (
      λ e. (
        first_shared-Shared client.api_versions server.api_versions (ground arith),
        c.0 (ground arith),
        v.0 (ground arith),
      ),
      λ ((x, a, b), w, u).
          let found = Shared-first_shared client.api_versions server.api_versions x a b in
          let fits = c.1 w in let suits = v.1 u in ground arith,
    )

-- If `sorted` returns the texts that it is given, a client and a server that are compatible are so
-- with their roles exchanged.
pub compatible_comm :
    (sorted : List String → List String) (client server : FeatureHandshake)
    → IsSorting sorted
    → (decide_compatibility sorted client server).compatible ≡ true
    → (decide_compatibility sorted server client).compatible ≡ true
compatible_comm sorted client server s e =
    let ((x, a, b), w, u) = (compatible_iff sorted client server s).0 e in
    (compatible_iff sorted server client s).1 ((x, b, a), u, w)
