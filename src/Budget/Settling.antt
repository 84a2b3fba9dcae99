-- ===== src/Budget/Settling.antt =====
-- src/capabilityhub/budget.py: `cancel` and `reconcile`, on every outcome.
use capabilityhub.Base.{
  ℕ, ◌+◌, ◌≤◌, String, ◌≡◌, refl, ◌⊎◌, inl, inr, true, false, some, List, arith, if◌then◌else◌,
  length, get_elem?, set, mem, All, All-get, All-set, Bool-cases,
}
use capabilityhub.Dict.{text_key, IsDict}
use capabilityhub.Values.{Value}
use capabilityhub.Errors.{Exc}
use capabilityhub.Result.{ok, raise, Result-cases}
use capabilityhub.Exec.{◌>>◌}
use capabilityhub.Budget.{
  Books, Counts, Ledger, Reservation, count, validate_amounts, check_capacity, chain_of,
  with_ledger, free, charge, reservation, deactivate, reconcile, cancel,
}
use capabilityhub.Budget.Amounts.{check_ledger_room, count-add, subtract_enough, validated-IsDict}
use capabilityhub.Budget.Chains.{Found, chain_of-Found}
use capabilityhub.Budget.Loops.{
  get_elem?-set, set-set, Changes, Changed, Ready-of_valid, for_each_changes,
}
use capabilityhub.Budget.Caps.{
  IsWithinCaps, held, IsPlaced, IsValid, check_capacity_each, check_capacity_room, caps_after_check,
}
use capabilityhub.Budget.Holds.{held-deactivate, share-le-held}
use capabilityhub.Budget.Frames.{valid_after}

-- The ledger can give back the amounts.
abbrev HoldsEnough : Counts → Ledger → Type 0
HoldsEnough a l = IsDict l.reserved × ((k : String) → count k a ≤ count k l.reserved)

free_changes :
    (a : Counts)
    → IsDict a
    → Changes (λ i. with_ledger i (free a)) (λ l. (free a l).1) (HoldsEnough a)
unfolding with_ledger
free_changes a d i l b e p =
    let (t', done, fine, left) = subtract_enough a l.reserved d p.0 p.1 in ground (arith, e, done)

-- What `_subtract` leaves of a ledger that holds enough.
free_counts :
    (a : Counts) (l : Ledger) (k : String)
    → IsDict a
    → HoldsEnough a l
    → count k (free a l).1.reserved + count k a ≡ count k l.reserved
free_counts a l k d p =
    let (t', done, fine, left) = subtract_enough a l.reserved d p.0 p.1 in
    ground (arith, done, left k)

free-IsDict : (a : Counts) (l : Ledger) → IsDict a → HoldsEnough a l → IsDict (free a l).1.reserved
free-IsDict a l d p =
    let (t', done, fine, left) = subtract_enough a l.reserved d p.0 p.1 in rw done fine

module _ {b : Books} (v : IsValid b) (r : ℕ) (res : Reservation)
    (e : get_elem? b.reservations r ≡ some res) (on : res.active ≡ true) where
  open b use {ledgers, reservations}

  res-IsPlaced : IsPlaced (length ledgers) res
  res-IsPlaced = All-get (IsPlaced (length ledgers)) reservations r v.placed e

  pub chain_found : Found ledgers (chain_of ledgers res.ledger) res.ledger
  chain_found = chain_of-Found ledgers res.ledger v.forest res-IsPlaced.0

  -- Conservation gives every ledger of the chain enough.
  holds_enough :
      (i : ℕ) (l : Ledger)
      → mem i chain_found.ids ≡ true
      → get_elem? ledgers i ≡ some l
      → HoldsEnough res.amounts l
  holds_enough i l m here = (
    v.dicts i l here,
    λ k. ground (
      arith,
      v.conserved i l k here,
      share-le-held ledgers i k reservations r res e,
      chain_found.result,
    ),
  )

  -- With the reservation inactive, the others hold what is left.
  left_over :
      (i : ℕ) (l : Ledger) (k : String)
      → get_elem? ledgers i ≡ some l
      → held ledgers i k (set reservations r (record res { active = false }))
          + (if mem i chain_found.ids then count k res.amounts else 0)
        ≡ count k l.reserved
  left_over i l k here = ground (
    arith,
    v.conserved i l k here,
    held-deactivate ledgers i k reservations r res e,
    chain_found.result,
  )

  -- The reservations once this one is settled.
  abbrev pub settled : List Reservation
  settled = set reservations r (record res { active = false })

  settled-IsPlaced : All (IsPlaced (length ledgers)) settled
  settled-IsPlaced = All-set (IsPlaced (length ledgers)) reservations r _ v.placed res-IsPlaced

  -- What `cancel` does on the active reservation.
  pub record Cancelled : Type 0 where
    pub after : List Ledger
    pub changed : Changed (λ l. (free res.amounts l).1) chain_found.ids ledgers after
    pub result : cancel r b ≡ (ok tt, record { ledgers = after; reservations = settled })

  -- It never raises.
  pub cancel_active : Cancelled
  unfolding cancel reservation deactivate
  cancel_active =
      let (h', done, changed) =
        for_each_changes (λ i. with_ledger i (free res.amounts)) (λ l. (free res.amounts l).1)
          (HoldsEnough res.amounts) chain_found.ids b (free_changes res.amounts res-IsPlaced.1)
          chain_found.ascending
          (Ready-of_valid (HoldsEnough res.amounts) chain_found.ids ledgers chain_found.valid
            holds_enough) in
      record {
        after = h';
        changed = changed;
        result = ground (arith, e, on, chain_found.result, done);
      }

  free_within :
      (i : ℕ) (l : Ledger)
      → mem i chain_found.ids ≡ true
      → get_elem? ledgers i ≡ some l
      → IsWithinCaps (free res.amounts l).1
  free_within i l m here = record {
    caps = λ k limit g. omega (
      arith,
      (v.within i l here).caps k limit g,
      free_counts res.amounts l k res-IsPlaced.1 (holds_enough i l m here),
    );
  }

  -- The amounts that stay reserved are those of the other reservations.
  free_conserves :
      (i : ℕ) (l : Ledger) (k : String)
      → get_elem? ledgers i ≡ some l
      → count k (if mem i chain_found.ids then (free res.amounts l).1 else l).reserved
        ≡ held ledgers i k settled
  free_conserves i l k here = elim (Bool-cases (mem i chain_found.ids)) [
    | inl m ↦ rw m (
        omega (
          arith,
          free_counts res.amounts l k res-IsPlaced.1 (holds_enough i l m here),
          let left : held ledgers i k settled + count k res.amounts ≡ count k l.reserved =
                rw m at (left_over i l k here) in
              left,
        ))
    | inr m ↦ rw m (
        omega (
          arith,
          let left : held ledgers i k settled + 0 ≡ count k l.reserved =
                rw m at (left_over i l k here) in
              left,
        ))
  ]

  pub Cancelled-IsValid : IsValid (cancel r b).1
  Cancelled-IsValid = rw cancel_active.result (
      valid_after (λ l. (free res.amounts l).1) (λ l. (refl, refl)) chain_found.ids ledgers
        cancel_active.after cancel_active.changed b settled refl v
        (λ i l m here. (
          free_within i l m here,
          free-IsDict res.amounts l res-IsPlaced.1 (holds_enough i l m here),
        ))
        settled-IsPlaced free_conserves)

  -- What `reconcile` does where its capacity check passes.
  pub record Reconciled (charged : Counts) : Type 0 where
    pub after : List Ledger
    pub changed :
        Changed (λ l. (charge charged (free res.amounts l).1).1) chain_found.ids ledgers after

  settle_changes :
      (charged : Counts)
      → Changes
          (λ i. with_ledger i (free res.amounts) >> with_ledger i (charge charged))
          (λ l. (charge charged (free res.amounts l).1).1)
          (HoldsEnough res.amounts)
  unfolding with_ledger
  settle_changes charged i l b' here p =
      let (t', done, fine, left) = subtract_enough res.amounts l.reserved res-IsPlaced.1 p.0 p.1 in
      ground (
        arith,
        done,
        get_elem?-set b'.ledgers i i (free res.amounts l).1 here,
        set-set b'.ledgers i (free res.amounts l).1 (charge charged (free res.amounts l).1).1,
      )

  -- On the active reservation `reconcile` settles it, or raises and has changed nothing.
  pub reconcile_outcome :
      (actual : List (String × Value))
      → ((charged : Counts) × (validate_amounts true actual ≡ ok charged)
          × (check_capacity ledgers chain_found.ids charged res.amounts ≡ ok tt)
          × (c : Reconciled charged) × (reconcile r actual b
              ≡ (ok tt, record { ledgers = c.after; reservations = settled })))
        ⊎ ((x : Exc) × (reconcile r actual b ≡ (raise x, b)))
  unfolding reconcile reservation deactivate
  reconcile_outcome actual = elim (Result-cases (validate_amounts true actual)) [
    | inr (x, bad) ↦ inr (x, ground arith)
    | inl (charged, fine) ↦
        elim (Result-cases (check_capacity ledgers chain_found.ids charged res.amounts)) [
          | inr (x, full) ↦ inr (x, ground (arith, e, on, chain_found.result))
          | inl (u, room) ↦
              let (h', done, changed) =
                for_each_changes
                  (λ i. with_ledger i (free res.amounts) >> with_ledger i (charge charged))
                  (λ l. (charge charged (free res.amounts l).1).1) (HoldsEnough res.amounts)
                  chain_found.ids b (settle_changes charged) chain_found.ascending
                  (Ready-of_valid (HoldsEnough res.amounts) chain_found.ids ledgers
                    chain_found.valid holds_enough) in
              inl (
                charged,
                fine,
                room,
                record { after = h'; changed = changed },
                ground (arith, e, on, chain_found.result, done),
              )
        ]
  ]

  -- The charge is bounded by the check, and only the other reservations stay reserved.
  pub Reconciled-IsValid :
      (charged : Counts)
      → IsDict charged
      → check_capacity ledgers chain_found.ids charged res.amounts ≡ ok tt
      → (c : Reconciled charged) → IsValid (record { ledgers = c.after; reservations = settled })
  Reconciled-IsValid charged d room c =
      valid_after (λ l. (charge charged (free res.amounts l).1).1) (λ l. (refl, refl))
        chain_found.ids ledgers c.after c.changed b settled refl v
        (λ i l m here. (
          caps_after_check l (charge charged (free res.amounts l).1).1 charged res.amounts
              (v.within i l here)
              (check_capacity_each ledgers chain_found.ids charged res.amounts i l room m here) refl
              (λ k. omega (
                arith,
                count-add k l.used charged d,
                free_counts res.amounts l k res-IsPlaced.1 (holds_enough i l m here),
              )),
          free-IsDict res.amounts l res-IsPlaced.1 (holds_enough i l m here),
        ))
        settled-IsPlaced (λ i l k here. ground (arith, free_conserves i l k here))

  pub reconcile_active-IsValid : (actual : List (String × Value)) → IsValid (reconcile r actual b).1
  reconcile_active-IsValid actual = elim (reconcile_outcome actual) [
    | inr (x, refused) ↦ rw refused v
    | inl (charged, fine, room, c, done) ↦
        rw done (Reconciled-IsValid charged (validated-IsDict true actual fine) room c)
  ]

  -- There is room for whatever is within the reserved amounts.
  room_within :
      (charged : Counts)
      → IsDict charged
      → ((k : String) → count k charged ≤ count k res.amounts)
      → check_capacity ledgers chain_found.ids charged res.amounts ≡ ok tt
  room_within charged d less =
      check_capacity_room ledgers chain_found.ids charged res.amounts chain_found.valid
        (λ i l m here.
          check_ledger_room l res.amounts charged d
            (λ k n limit g capped. ground (arith, less k, (v.within i l here).caps k limit capped)))

  -- A charge within the reserved amounts is always accepted.
  pub reconcile_within :
      (actual : List (String × Value)) {charged : Counts}
      → validate_amounts true actual ≡ ok charged
      → ((k : String) → count k charged ≤ count k res.amounts)
      → (c : Reconciled charged) × (reconcile r actual b
          ≡ (ok tt, record { ledgers = c.after; reservations = settled }))
  unfolding reconcile reservation deactivate
  reconcile_within actual {charged} fine less =
      let (h', done, changed) =
        for_each_changes (λ i. with_ledger i (free res.amounts) >> with_ledger i (charge charged))
          (λ l. (charge charged (free res.amounts l).1).1) (HoldsEnough res.amounts) chain_found.ids
          b (settle_changes charged) chain_found.ascending
          (Ready-of_valid (HoldsEnough res.amounts) chain_found.ids ledgers chain_found.valid
            holds_enough) in
      (
        record { after = h'; changed = changed },
        ground (
          arith,
          e,
          on,
          chain_found.result,
          room_within charged (validated-IsDict true actual fine) less,
          done,
        ),
      )
