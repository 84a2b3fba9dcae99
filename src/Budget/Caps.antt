-- ===== src/Budget/Caps.antt =====
-- src/capabilityhub/budget.py: what holds of the objects between two calls.
use capabilityhub.Base.{
  ℕ, ◌+◌, ◌≤◌, ◌<◌, String, ◌≡◌, refl, inl, inr, true, ◌&&◌, some, List, [], ◌∷◌, arith,
  if◌then◌else◌, length, get_elem?, mem, All, Option-cases,
}
use capabilityhub.Dict.{text_key, get, IsDict}
use capabilityhub.Result.{ok, raise}
use capabilityhub.Budget.{
  Books, Counts, Ledger, Reservation, count, check_ledger, check_capacity, chain_of,
}
use capabilityhub.Budget.Amounts.{check_ledger_bounds}
use capabilityhub.Budget.Chains.{IsForest, get_elem?-some}

-- No counter that the ledger limits is used and reserved beyond its limit.
pub record IsWithinCaps (l : Ledger) : Type 0 where
  pub caps :
      (k : String) (limit : ℕ)
      → get k l.limits ≡ some limit
      → count k l.used + count k l.reserved ≤ limit

abbrev pub chain_ids : List Ledger → ℕ → List ℕ
chain_ids h i = elim (chain_of h i) [ ok ids ↦ ids | raise e ↦ [] ]

-- What the reservation holds of a counter in the ledger `i`.
abbrev pub share : List Ledger → ℕ → String → Reservation → ℕ
share h i k r = if r.active && mem i (chain_ids h r.ledger) then count k r.amounts else 0

abbrev pub held : List Ledger → ℕ → String → List Reservation → ℕ
held h i k [] = 0
held h i k (r ∷ rs) = share h i k r + held h i k rs

abbrev pub IsPlaced : ℕ → Reservation → Type 0
IsPlaced n r = (r.ledger < n) × IsDict r.amounts

pub record IsValid (b : Books) : Type 0 where
  pub forest : IsForest b.ledgers
  pub placed : All (IsPlaced (length b.ledgers)) b.reservations
  pub within : (i : ℕ) (l : Ledger) → get_elem? b.ledgers i ≡ some l → IsWithinCaps l
  pub dicts : (i : ℕ) (l : Ledger) → get_elem? b.ledgers i ≡ some l → IsDict l.reserved
  -- What a ledger has reserved is the sum over the active reservations in its subtree.
  pub conserved :
      (i : ℕ) (l : Ledger) (k : String)
      → get_elem? b.ledgers i ≡ some l
      → count k l.reserved ≡ held b.ledgers i k b.reservations

-- A passed `_check_capacity` has checked every ledger of the chain.
pub check_capacity_each :
    (h : List Ledger) (ids : List ℕ) (a replaced : Counts) (i : ℕ) (l : Ledger)
    → check_capacity h ids a replaced ≡ ok tt
    → mem i ids ≡ true
    → get_elem? h i ≡ some l
    → check_ledger l replaced a ≡ ok tt
unfolding check_capacity
check_capacity_each h [] a replaced i l e m g = cc
check_capacity_each h (x ∷ ids) a replaced i l e m g = elim (Option-cases (get_elem? h x)) [
  | inl gone ↦ ground arith
  | inr (y, here) ↦ ground (arith, check_capacity_each h ids a replaced i l)
]

-- It passes where every ledger of the chain has room.
pub check_capacity_room :
    (h : List Ledger) (ids : List ℕ) (a replaced : Counts)
    → All (λ i. i < length h) ids
    → ((i : ℕ) (l : Ledger)
        → mem i ids ≡ true
        → get_elem? h i ≡ some l
        → check_ledger l replaced a ≡ ok tt)
    → check_capacity h ids a replaced ≡ ok tt
unfolding check_capacity
check_capacity_room h [] a replaced v each = refl
check_capacity_room h (x ∷ ids) a replaced v each =
    let (y, here) = get_elem?-some h x v.0 in
    ground
      (arith, each x y, check_capacity_room h ids a replaced v.1 (λ i l m. each i l (ground arith)))

-- The limits hold after the checked amounts take the place of the replaced ones.
pub caps_after_check :
    (l l' : Ledger) (a replaced : Counts)
    → IsWithinCaps l
    → check_ledger l replaced a ≡ ok tt
    → l'.limits ≡ l.limits
    → ((k : String)
        → count k l'.used + count k l'.reserved + count k replaced
          ≡ count k l.used + count k l.reserved + count k a)
    → IsWithinCaps l'
caps_after_check l l' a replaced w c same moved = record {
  caps = λ k limit g. elim (Option-cases (get k a)) [
    | inl absent ↦ ground (arith, w.caps k limit, moved k)
    | inr (n, present) ↦
        ground (arith, check_ledger_bounds l replaced a k n limit present (rw same at g) c, moved k)
  ];
}
