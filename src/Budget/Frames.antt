-- ===== src/Budget/Frames.antt =====
-- src/capabilityhub/budget.py: what stays true of a heap when a loop has changed the ledgers of one chain.
use capabilityhub.Base.{
  ℕ, String, ◌≡◌, inl, inr, true, some, List, arith, ◌∙◌, sym, if◌then◌else◌, length, get_elem?,
  mem, All, Bool-cases, Option-cases,
}
use capabilityhub.Dict.{text_key, IsDict}
use capabilityhub.Budget.{Books, Ledger, Reservation, count, chain_of}
use capabilityhub.Budget.Chains.{parent_at, IsForest, chain_of_parents}
use capabilityhub.Budget.Loops.{Changed}
use capabilityhub.Budget.Caps.{IsWithinCaps, held, IsPlaced, IsValid}
use capabilityhub.Budget.Holds.{held-chains}

-- The change keeps what identifies a ledger.
abbrev pub KeepsPlace : (Ledger → Ledger) → Type 0
KeepsPlace F = (l : Ledger) → ((F l).parent ≡ l.parent) × ((F l).limits ≡ l.limits)

module _ (F : Ledger → Ledger) (keeps : KeepsPlace F) (ids : List ℕ) (h h' : List Ledger)
    (changed : Changed F ids h h') where
  pub parents_kept : (i : ℕ) → parent_at h' i ≡ parent_at h i
  parents_kept i = elim (Option-cases (get_elem? h i)) [
    | inl gone ↦ ground (arith, changed.at i)
    | inr (l, here) ↦ ground (arith, changed.at i, keeps l)
  ]

  pub chains_kept : (j : ℕ) → chain_of h' j ≡ chain_of h j
  chains_kept j = chain_of_parents h h' j changed.long parents_kept

  pub held_kept : (i : ℕ) (k : String) (rs : List Reservation) → held h' i k rs ≡ held h i k rs
  held_kept i k rs = held-chains h h' i k rs chains_kept

  pub IsForest-kept : IsForest h → IsForest h'
  IsForest-kept forest i p e = forest i p (sym (parents_kept i) ∙ e)

  -- Where a changed ledger comes from.
  pub origin :
      (i : ℕ) (l' : Ledger)
      → get_elem? h' i ≡ some l'
      → (l : Ledger) × (get_elem? h i ≡ some l) × (l' ≡ (if mem i ids then F l else l))
  origin i l' e = elim (Option-cases (get_elem? h i)) [
    | inl gone ↦ absurd (ground (arith, changed.at i))
    | inr (l, here) ↦ (l, here, ground (arith, changed.at i))
  ]

  pub valid_after :
      (b : Books) (rs : List Reservation)
      → b.ledgers ≡ h
      → IsValid b
      → ((i : ℕ) (l : Ledger)
          → mem i ids ≡ true
          → get_elem? h i ≡ some l
          → IsWithinCaps (F l) × IsDict (F l).reserved)
      → All (IsPlaced (length h)) rs
      → ((i : ℕ) (l : Ledger) (k : String)
          → get_elem? h i ≡ some l
          → count k (if mem i ids then F l else l).reserved ≡ held h i k rs)
      → IsValid (record { ledgers = h'; reservations = rs })
  valid_after b rs e v fine placed moved = record {
    forest = IsForest-kept (rw e at v.forest);
    placed = rw changed.long placed;
    within = λ i l' g.
        let (l, here, from) = origin i l' g in
        rw from (elim (Bool-cases (mem i ids)) [
          | inl m ↦ rw m (fine i l m here).0
          | inr m ↦ rw m (v.within i l (rw e here))
        ]);
    dicts = λ i l' g.
        let (l, here, from) = origin i l' g in
        rw from (elim (Bool-cases (mem i ids)) [
          | inl m ↦ rw m (fine i l m here).1
          | inr m ↦ rw m (v.dicts i l (rw e here))
        ]);
    conserved = λ i l' k g.
        let (l, here, from) = origin i l' g in rw from (moved i l k here ∙ sym (held_kept i k rs));
  }
