-- ===== src/Budget/Chains.antt =====
-- src/capabilityhub/budget.py: `_chain`, and a loop over the ledgers of a chain.
use mathlib.Core.Option
use capabilityhub.Base.{
  ℕ, zero, suc, ◌<◌, ◌≡◌, refl, inl, inr, false, Option, none, some, List, [], ◌∷◌, ◌++◌, arith,
  length, get_elem?, length-append, mem, All, Bool-cases, Option-cases, subst, sym,
}
use capabilityhub.Result.{Result, ok}
use capabilityhub.Budget.{Ledger, chain_from, chain_of}

-- The parent of the ledger at a reference, if there is a ledger.
abbrev pub parent_at : List Ledger → ℕ → Option (Option ℕ)
parent_at h i = Option.map (λ l. l.parent) (get_elem? h i)

-- Every parent is older than its child: constructors can refer to nothing else.
abbrev pub IsForest : List Ledger → Type 0
IsForest h = (i p : ℕ) → parent_at h i ≡ some (some p) → p < i

abbrev pub Ascending : List ℕ → Type 0
Ascending [] = Unit
Ascending (x ∷ xs) = All (λ y. x < y) xs × Ascending xs

-- From `above` each ledger is the parent of the next, down to the ledger `self`.
abbrev pub Linked : List Ledger → Option ℕ → List ℕ → ℕ → Type 0
Linked h above [] self = above ≡ some self
Linked h above (x ∷ xs) self = (parent_at h x ≡ some above) × Linked h (some x) xs self

pub mem-above : (x : ℕ) (xs : List ℕ) → All (λ y. x < y) xs → mem x xs ≡ false
mem-above x [] h = refl
mem-above x (y ∷ xs) h = ground (arith, mem-above x xs h.1)

above_trans : (i x : ℕ) (xs : List ℕ) → i < x → All (λ y. x < y) xs → All (λ y. i < y) xs
above_trans i x [] lt h = tt
above_trans i x (y ∷ xs) lt h = (omega arith, above_trans i x xs lt h.1)

pub get_elem?-some :
    (h : List Ledger) (i : ℕ) → i < length h → (l : Ledger) × (get_elem? h i ≡ some l)
get_elem?-some [] i lt = absurd (omega arith)
get_elem?-some (l ∷ h) zero lt = (l, refl)
get_elem?-some (l ∷ h) (suc i) lt = get_elem?-some h i (omega arith)

pub get_elem?-lt : (h : List Ledger) (i : ℕ) {l : Ledger} → get_elem? h i ≡ some l → i < length h
get_elem?-lt [] i e = cc
get_elem?-lt (x ∷ h) zero e = omega arith
get_elem?-lt (x ∷ h) (suc i) e = omega (arith, get_elem?-lt h i e)

-- What the loop returns for a chain that is already collected below the current ledger.
pub record Found (h : List Ledger) (r : Result (List ℕ)) (self : ℕ) : Type 0 where
  pub ids : List ℕ
  pub result : r ≡ ok ids
  pub ascending : Ascending ids
  pub valid : All (λ i. i < length h) ids
  pub linked : Linked h none ids self

chain_from_found :
    (fuel : ℕ) (h : List Ledger) (chain : List ℕ) (current : Option ℕ) (self : ℕ)
    → IsForest h
    → ((i : ℕ) → current ≡ some i → (i < fuel) × (i < length h) × All (λ y. i < y) chain)
    → Ascending chain
    → All (λ i. i < length h) chain
    → Linked h current chain self
    → Found h (chain_from fuel h chain current) self
unfolding chain_from
chain_from_found fuel h chain none self forest below asc valid linked = record {
  ids = chain;
  result = refl;
  ascending = asc;
  valid = valid;
  linked = linked;
}
chain_from_found zero h chain (some i) self forest below asc valid linked =
    absurd (omega (arith, (below i refl).0))
chain_from_found (suc fuel) h chain (some i) self forest below asc valid linked =
    let (in_fuel, in_heap, above) = below i refl in
    let (l, here) = get_elem?-some h i in_heap in
    rw (mem-above i chain above, here)
      (chain_from_found fuel h (i ∷ chain) l.parent self forest
        (λ p e.
          let older : p < i = forest i p (rw here (ground arith)) in
          (omega arith, omega arith, (older, above_trans p i chain older above)))
        (above, asc) (in_heap, valid) (rw here refl, linked))

-- In a heap where parents are older than their children, the loop of `_chain` neither meets its cycle
-- guard nor runs out of its fuel for a ledger of the heap: it returns the ledger's ancestors and
-- itself, root first, each the parent of the next, in ascending order of reference and so none of
-- them twice.
pub chain_of-Found :
    (h : List Ledger) (self : ℕ) → IsForest h → self < length h → Found h (chain_of h self) self
unfolding chain_of
chain_of-Found h self forest valid =
    chain_from_found (suc (length h)) h [] (some self) self forest
      (λ i e. let same : self ≡ i = ground arith in (omega arith, omega arith, tt)) tt tt refl

-- A chain is found by the parents alone.
chain_from_parents :
    (fuel : ℕ) (h h' : List Ledger) (chain : List ℕ) (current : Option ℕ)
    → ((i : ℕ) → parent_at h' i ≡ parent_at h i)
    → chain_from fuel h' chain current ≡ chain_from fuel h chain current
unfolding chain_from
chain_from_parents fuel h h' chain none same = refl
chain_from_parents zero h h' chain (some i) same = refl
chain_from_parents (suc fuel) h h' chain (some i) same = elim (Option-cases (get_elem? h i)) [
  | inl e ↦ ground (arith, same i)
  | inr (l, e) ↦ elim (Option-cases (get_elem? h' i)) [
    | inl e' ↦ ground (arith, same i)
    | inr (l', e') ↦ ground (arith, same i, chain_from_parents fuel h h' (i ∷ chain) l.parent same)
  ]
]

pub chain_of_parents :
    (h h' : List Ledger) (self : ℕ)
    → length h' ≡ length h
    → ((i : ℕ) → parent_at h' i ≡ parent_at h i)
    → chain_of h' self ≡ chain_of h self
unfolding chain_of
chain_of_parents h h' self long same =
    subst (λ n. chain_from (suc n) h' [] (some self) ≡ chain_from (suc (length h)) h [] (some self))
      (sym long) (chain_from_parents (suc (length h)) h h' [] (some self) same)

get_elem?-append_old :
    (h : List Ledger) (x : Ledger) (i : ℕ) {l : Ledger}
    → get_elem? h i ≡ some l
    → get_elem? (h ++ x ∷ []) i ≡ some l
get_elem?-append_old [] x i e = cc
get_elem?-append_old (y ∷ h) x zero e = e
get_elem?-append_old (y ∷ h) x (suc i) e = get_elem?-append_old h x i e

chain_from_append :
    (fuel : ℕ) (h : List Ledger) (x : Ledger) (chain : List ℕ) (current : Option ℕ) {c : List ℕ}
    → chain_from fuel h chain current ≡ ok c
    → chain_from (suc fuel) (h ++ x ∷ []) chain current ≡ ok c
unfolding chain_from
chain_from_append fuel h x chain none e = e
chain_from_append zero h x chain (some i) e = cc
chain_from_append (suc fuel) h x chain (some i) {c} e = elim (Bool-cases (mem i chain)) [
  | inl loop ↦ ground arith
  | inr fresh ↦ elim (Option-cases (get_elem? h i)) [
    | inl gone ↦ ground arith
    | inr (l, here) ↦
        rw (fresh, get_elem?-append_old h x i here)
          (chain_from_append fuel h x (i ∷ chain) l.parent (rw (fresh, here) at e))
  ]
]

-- A new ledger at the end of the heap changes no chain that was found before.
pub chain_of-append :
    (h : List Ledger) (x : Ledger) (self : ℕ) {c : List ℕ}
    → chain_of h self ≡ ok c
    → chain_of (h ++ x ∷ []) self ≡ ok c
unfolding chain_of
chain_of-append h x self {c} e =
    let long : suc (length h) ≡ length (h ++ x ∷ []) = omega (arith, length-append h (x ∷ [])) in
    subst (λ n. chain_from (suc n) (h ++ x ∷ []) [] (some self) ≡ ok c) long
      (chain_from_append (suc (length h)) h x [] (some self) e)
