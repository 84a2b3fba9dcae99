-- ===== src/Budget/RoundTrips.antt =====
-- src/capabilityhub/budget.py: calls that follow a `reserve`: `cancel` undoes it, and `spend` charges it.
use capabilityhub.Base.{
  subst, get_elem?-append_last, ℕ, ◌+◌, ◌<◌, String, ◌≡◌, refl, ◌⊎◌, inl, inr, true, false, Option,
  none, some, List, [], ◌∷◌, ◌++◌, arith, ◌∙◌, sym, ap, if◌then◌else◌, length, get_elem?, mem,
}
use capabilityhub.Dict.{text_key}
use capabilityhub.Values.{Value}
use capabilityhub.Errors.{Exc}
use capabilityhub.Result.{Result, ok, raise}
use capabilityhub.Budget.Histories.{reconcile-IsValid}
use capabilityhub.Budget.{
  Books, Counts, Ledger, Reservation, count, validate_amounts, chain_of, hold, free, charge,
  is_empty_text, or_fresh, reserve, spend, reconcile, cancel,
}
use capabilityhub.Budget.Amounts.{count-add, validated-IsDict}
use capabilityhub.Budget.Loops.{Changed}
use capabilityhub.Budget.Caps.{held, IsValid}
use capabilityhub.Budget.Holds.{held-append, held-deactivate}
use capabilityhub.Budget.Frames.{held_kept, chains_kept, KeepsPlace, chains_kept}
use capabilityhub.Budget.Reserving.{Reserved, reserve_outcome, reserve-IsValid}
use capabilityhub.Budget.Settling.{
  chain_found, cancel_active, Cancelled-IsValid, settled, reconcile_within,
}

-- Nothing was raised, no use has changed, and every counter is reserved as before.
abbrev pub Undone : Books → Result (Unit {0}) × Books → Type 0
Undone b (outcome, b2) =
    (outcome ≡ ok tt)
    × ((i : ℕ) (l : Ledger) (k : String)
        → get_elem? b.ledgers i ≡ some l
        → (l2 : Ledger) × (get_elem? b2.ledgers i ≡ some l2)
          × (l2.used ≡ l.used)
          × (count k l2.reserved ≡ count k l.reserved))

-- Nothing was raised, the ledgers of the chain have used the amounts, and every counter is reserved
-- as before.
abbrev pub Charged : Books → List ℕ → Counts → Result (Unit {0}) × Books → Type 0
Charged b ids amounts (outcome, b2) =
    (outcome ≡ ok tt)
    × ((i : ℕ) (l : Ledger) (k : String)
        → get_elem? b.ledgers i ≡ some l
        → (l2 : Ledger) × (get_elem? b2.ledgers i ≡ some l2)
          × (count k l2.used ≡ count k l.used + (if mem i ids then count k amounts else 0))
          × (count k l2.reserved ≡ count k l.reserved))

module _ {fresh : String} {self : ℕ} {raw : List (String × Value)} {given : Option String}
    {b : Books} (v : IsValid b) (named : is_empty_text fresh ≡ false)
    (valid : self < length b.ledgers) (made : Reserved fresh self raw given b) where
  open made use {requested, ids, after}

  abbrev res : Reservation
  res = record {
    ledger = self;
    reservation_id = or_fresh given fresh;
    amounts = requested;
    active = true;
  }

  abbrev b1 : Books
  b1 = record { ledgers = after; reservations = b.reservations ++ res ∷ [] }

  abbrev ref : ℕ
  ref = length b.reservations

  b1-IsValid : IsValid b1
  b1-IsValid =
      subst (λ p. IsValid p.1) made.result (reserve-IsValid fresh self raw given b v named valid)

  at_ref : get_elem? b1.reservations ref ≡ some res
  at_ref = get_elem?-append_last b.reservations res

  -- With the new reservation inactive, the others hold what they held.
  held_before :
      (i : ℕ) (k : String)
      → held b.ledgers i k (settled b1-IsValid ref res at_ref refl)
        ≡ held b.ledgers i k b.reservations
  held_before i k = omega (
    arith,
    held-deactivate b.ledgers i k b1.reservations ref res at_ref,
    held-append b.ledgers i k b.reservations res,
  )

  -- A loop over the new reservation's chain that settles it leaves every reserve as it was.
  reserved_before :
      (F : Ledger → Ledger) (h2 : List Ledger)
      → KeepsPlace F
      → Changed F (chain_found b1-IsValid ref res at_ref refl).ids after h2
      → IsValid (record { ledgers = h2; reservations = settled b1-IsValid ref res at_ref refl })
      → (i : ℕ) (l l2 : Ledger) (k : String) → get_elem? b.ledgers i ≡ some l
      → get_elem? h2 i ≡ some l2
      → count k l2.reserved ≡ count k l.reserved
  reserved_before F h2 keeps changed v2 i l l2 k here there =
      v2.conserved i l2 k there
      ∙ held_kept F keeps _ after h2 changed i k (settled b1-IsValid ref res at_ref refl)
      ∙ held_kept (λ l. (hold requested l).1) (λ l. (refl, refl)) ids b.ledgers after made.changed i
          k (settled b1-IsValid ref res at_ref refl)
      ∙ held_before i k
      ∙ sym (v.conserved i l k here)

  cancel_undoes : Undone b (cancel ref b1)
  cancel_undoes =
      let c = cancel_active b1-IsValid ref res at_ref refl in
      let v2 = Cancelled-IsValid b1-IsValid ref res at_ref refl in
      rw c.result (
        refl,
        λ i l k here.
            let l1 = if mem i ids then (hold requested l).1 else l in
            let l2 =
              if mem i (chain_found b1-IsValid ref res at_ref refl).ids
              then (free requested l1).1
              else l1 in
            let there : get_elem? c.after i ≡ some l2 =
              ground (arith, made.changed.at i, c.changed.at i) in
            (
              l2,
              there,
              ground arith,
              reserved_before (λ l. (free requested l).1) c.after (λ l. (refl, refl)) c.changed
                  (rw c.result at v2) i l l2 k here there,
            ),
      )

  -- The chain is the one that was reserved.
  same_chain : (chain_found b1-IsValid ref res at_ref refl).ids ≡ ids
  same_chain =
      let found = chain_found b1-IsValid ref res at_ref refl in
      let kept =
        chains_kept (λ l. (hold requested l).1) (λ l. (refl, refl)) ids b.ledgers after made.changed
          self in
      ground (arith, found.result, kept, made.chain)

  reconcile_charges : Charged b ids requested (reconcile ref raw b1)
  reconcile_charges =
      let d = validated-IsDict true raw made.validated in
      let (c, done) =
        reconcile_within b1-IsValid ref res at_ref refl raw made.validated (λ k. omega arith) in
      let v2 : IsValid (reconcile ref raw b1).1 = reconcile-IsValid b1 ref raw b1-IsValid in
      rw done (
        refl,
        λ i l k here.
            let l1 = if mem i ids then (hold requested l).1 else l in
            let l2 =
              if mem i (chain_found b1-IsValid ref res at_ref refl).ids
              then (charge requested (free requested l1).1).1
              else l1 in
            let there : get_elem? c.after i ≡ some l2 =
              ground (arith, made.changed.at i, c.changed.at i) in
            (
              l2,
              there,
              ground (arith, same_chain, count-add k l.used requested d),
              reserved_before (λ l. (charge requested (free requested l).1).1) c.after
                  (λ l. (refl, refl)) c.changed (rw done at v2) i l l2 k here there,
            ),
      )

-- On a valid heap, for a ledger of the heap and a new identifier that is not empty, `cancel` of a
-- reservation that `reserve` has just returned does not raise, leaves the used counters of every
-- ledger as they were, and leaves every reserved counter as it was before the `reserve`.
pub cancel-reserve :
    (fresh : String) (self : ℕ) (raw : List (String × Value)) (given : Option String) (b b1 : Books)
    (r : ℕ)
    → IsValid b
    → is_empty_text fresh ≡ false
    → self < length b.ledgers
    → reserve fresh self raw given b ≡ (ok r, b1)
    → Undone b (cancel r b1)
cancel-reserve fresh self raw given b b1' r v named valid done =
    elim (reserve_outcome fresh self raw given b named v.forest valid) [
      | inr (e, refused) ↦ absurd (ground arith)
      | inl made ↦
          let same = sym made.result ∙ done in
          let er : length b.reservations ≡ r = cc in
          subst (λ x. Undone b (cancel r x)) (ap (λ p. p.1) same)
            (subst (λ x. Undone b (cancel x (b1 v named valid made))) er
              (cancel_undoes v named valid made))
    ]

spend_granted :
    (fresh : String) (self : ℕ) (raw : List (String × Value)) (b b1 : Books) (r : ℕ)
    → reserve fresh self raw none b ≡ (ok r, b1)
    → spend fresh self raw b ≡ reconcile r raw b1
unfolding spend
spend_granted fresh self raw b b1 r e = ground arith

-- On a valid heap, for a ledger of the heap and a new identifier that is not empty, `spend` charges
-- the validated amounts to the ledger and each of its ancestors, once, does not raise and leaves every
-- reserved counter as it was; or it raises and changes nothing.
pub spend_outcome :
    (fresh : String) (self : ℕ) (raw : List (String × Value)) (b : Books)
    → IsValid b
    → is_empty_text fresh ≡ false
    → self < length b.ledgers
    → ((amounts : Counts) × (ids : List ℕ) × (validate_amounts true raw ≡ ok amounts)
        × (chain_of b.ledgers self ≡ ok ids)
        × Charged b ids amounts (spend fresh self raw b))
      ⊎ ((x : Exc) × (spend fresh self raw b ≡ (raise x, b)))
unfolding spend
spend_outcome fresh self raw b v named valid =
    elim (reserve_outcome fresh self raw none b named v.forest valid) [
      | inr (e, refused) ↦ inr (e, ground arith)
      | inl made ↦ inl (
        made.requested,
        made.ids,
        made.validated,
        made.chain,
        rw (spend_granted fresh self raw b _ _ made.result) (reconcile_charges v named valid made),
      )
    ]
