-- ===== src/Budget/Holds.antt =====
-- src/capabilityhub/budget.py: the sum of what the active reservations hold, under each change.
use capabilityhub.Base.{
  ℕ, zero, suc, ◌+◌, ◌≤◌, ◌<◌, String, ◌≡◌, refl, false, some, List, [], ◌∷◌, ◌++◌, arith, length,
  get_elem?, set, mem, All,
}
use capabilityhub.Budget.{Ledger, Reservation, chain_of}
use capabilityhub.Budget.Chains.{IsForest, chain_of-Found, chain_of-append}
use capabilityhub.Budget.Caps.{share, held, IsPlaced}

pub held-append :
    (h : List Ledger) (i : ℕ) (k : String) (rs : List Reservation) (r : Reservation)
    → held h i k (rs ++ r ∷ []) ≡ held h i k rs + share h i k r
held-append h i k [] r = omega arith
held-append h i k (x ∷ rs) r = omega (arith, held-append h i k rs r)

pub held-chains :
    (h h' : List Ledger) (i : ℕ) (k : String) (rs : List Reservation)
    → ((j : ℕ) → chain_of h' j ≡ chain_of h j)
    → held h' i k rs ≡ held h i k rs
held-chains h h' i k [] same = refl
held-chains h h' i k (r ∷ rs) same = ground (arith, same r.ledger, held-chains h h' i k rs same)

-- A reservation that is no longer active gives back its share.
pub held-deactivate :
    (h : List Ledger) (i : ℕ) (k : String) (rs : List Reservation) (r : ℕ) (res : Reservation)
    → get_elem? rs r ≡ some res
    → held h i k (set rs r (record res { active = false })) + share h i k res ≡ held h i k rs
held-deactivate h i k [] r res e = cc
held-deactivate h i k (x ∷ rs) zero res e = let same : x ≡ res = cc in rw same (omega arith)
held-deactivate h i k (x ∷ rs) (suc r) res e = omega (arith, held-deactivate h i k rs r res e)

pub share-le-held :
    (h : List Ledger) (i : ℕ) (k : String) (rs : List Reservation) (r : ℕ) (res : Reservation)
    → get_elem? rs r ≡ some res
    → share h i k res ≤ held h i k rs
share-le-held h i k rs r res e = omega (arith, held-deactivate h i k rs r res e)

not-mem_of_valid : (n : ℕ) (ids : List ℕ) → All (λ i. i < n) ids → mem n ids ≡ false
not-mem_of_valid n [] v = refl
not-mem_of_valid n (x ∷ ids) v = ground (arith, not-mem_of_valid n ids v.1)

module _ (h : List Ledger) (forest : IsForest h) (x : Ledger) where
  -- A new ledger leaves the shares in the old ones as they were.
  pub held-append_ledger :
      (i : ℕ) (k : String) (rs : List Reservation)
      → All (IsPlaced (length h)) rs
      → held (h ++ x ∷ []) i k rs ≡ held h i k rs
  held-append_ledger i k [] placed = refl
  held-append_ledger i k (r ∷ rs) placed =
      let found = chain_of-Found h r.ledger forest placed.0.0 in
      let kept = chain_of-append h x r.ledger found.result in
      ground (arith, kept, found.result, held-append_ledger i k rs placed.1)

  -- Nothing is held in a ledger that is new.
  pub held_new :
      (k : String) (rs : List Reservation)
      → All (IsPlaced (length h)) rs
      → held (h ++ x ∷ []) (length h) k rs ≡ 0
  held_new k [] placed = refl
  held_new k (r ∷ rs) placed =
      let found = chain_of-Found h r.ledger forest placed.0.0 in
      let kept = chain_of-append h x r.ledger found.result in
      ground
        (arith, kept, not-mem_of_valid (length h) found.ids found.valid, held_new k rs placed.1)
