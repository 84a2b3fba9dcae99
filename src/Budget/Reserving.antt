-- ===== src/Budget/Reserving.antt =====
-- src/capabilityhub/budget.py: `reserve`, on every outcome.
use capabilityhub.Base.{
  ℕ, ◌+◌, ◌<◌, String, ◌≡◌, refl, ◌⊎◌, inl, inr, true, false, Option, none, some, List, [], ◌∷◌,
  ◌++◌, arith, length, All-append, Bool-cases,
}
use capabilityhub.Dict.{text_key, IsDict}
use capabilityhub.Values.{Value}
use capabilityhub.Errors.{Exc}
use capabilityhub.Result.{ok, raise, Result-cases}
use capabilityhub.Budget.{
  Books, Counts, Ledger, count, validate_amounts, check_capacity, chain_of, with_ledger, hold,
  is_empty_text, or_fresh, create_reservation, reserve,
}
use capabilityhub.Budget.Amounts.{count-add, add-IsDict, validated-IsDict}
use capabilityhub.Budget.Chains.{IsForest, chain_of-Found}
use capabilityhub.Budget.Loops.{Changes, Changed, Ready-of_valid, for_each_changes}
use capabilityhub.Budget.Caps.{IsPlaced, IsValid, check_capacity_each, caps_after_check}
use capabilityhub.Budget.Holds.{held-append}
use capabilityhub.Budget.Frames.{valid_after}

-- A call of `reserve` that succeeds.
pub record Reserved (fresh : String) (self : ℕ) (raw : List (String × Value))
    (given : Option String) (b : Books) : Type 0 where
  pub requested : Counts
  pub validated : validate_amounts true raw ≡ ok requested
  pub ids : List ℕ
  pub chain : chain_of b.ledgers self ≡ ok ids
  pub room : check_capacity b.ledgers ids requested [] ≡ ok tt
  pub after : List Ledger
  pub changed : Changed (λ l. (hold requested l).1) ids b.ledgers after
  pub result : reserve fresh self raw given b ≡ (
    ok (length b.reservations),
    record {
      ledgers = after;
      reservations =
          b.reservations
          ++ record {
            ledger = self;
            reservation_id = or_fresh given fresh;
            amounts = requested;
            active = true;
          }
            ∷ [];
    },
  )

hold_changes : (a : Counts) → Changes (λ i. with_ledger i (hold a)) (λ l. (hold a l).1) (λ l. Unit)
unfolding with_ledger
hold_changes a i l b e p = ground arith

or_fresh_nonempty :
    (given : Option String) (fresh : String)
    → is_empty_text fresh ≡ false
    → is_empty_text (or_fresh given fresh) ≡ false
or_fresh_nonempty none fresh h = h
or_fresh_nonempty (some s) fresh h = elim (Bool-cases (is_empty_text s)) [
  | inl e ↦ rw e h
  | inr e ↦ rw e e
]

-- `reserve` succeeds, or it raises and has changed nothing.
pub reserve_outcome :
    (fresh : String) (self : ℕ) (raw : List (String × Value)) (given : Option String) (b : Books)
    → is_empty_text fresh ≡ false
    → IsForest b.ledgers
    → self < length b.ledgers
    → Reserved fresh self raw given b
      ⊎ ((e : Exc) × (reserve fresh self raw given b ≡ (raise e, b)))
unfolding reserve create_reservation
reserve_outcome fresh self raw given b named forest valid =
    elim (Result-cases (validate_amounts true raw)) [
      | inr (e, bad) ↦ inr (e, ground arith)
      | inl (requested, fine) ↦
          let found = chain_of-Found b.ledgers self forest valid in
          elim (Result-cases (check_capacity b.ledgers found.ids requested [])) [
            | inr (e, full) ↦ inr (e, ground (arith, found.result))
            | inl (u, room) ↦
                let (h', done, changed) =
                  for_each_changes (λ i. with_ledger i (hold requested)) (λ l. (hold requested l).1)
                    (λ l. Unit) found.ids b (hold_changes requested) found.ascending
                    (Ready-of_valid (λ l. Unit) found.ids b.ledgers found.valid
                      (λ i l m here. tt)) in
                inl (record {
                  requested = requested;
                  validated = fine;
                  ids = found.ids;
                  chain = found.result;
                  room = room;
                  after = h';
                  changed = changed;
                  result = ground (arith, found.result, done, or_fresh_nonempty given fresh named);
                })
          ]
    ]

module _ {fresh : String} {self : ℕ} {raw : List (String × Value)} {given : Option String}
    {b : Books} (v : IsValid b) (valid : self < length b.ledgers)
    (r : Reserved fresh self raw given b) where
  open r use {requested, ids, after}

  requested-IsDict : IsDict requested
  requested-IsDict = validated-IsDict true raw r.validated

  hold_counts :
      (l : Ledger) (k : String)
      → count k (hold requested l).1.reserved ≡ count k l.reserved + count k requested
  hold_counts l k = count-add k l.reserved requested requested-IsDict

  Reserved-IsValid : IsValid (reserve fresh self raw given b).1
  Reserved-IsValid = rw r.result (
      valid_after (λ l. (hold requested l).1) (λ l. (refl, refl)) ids b.ledgers after r.changed b _
        refl v
        (λ i l m here. (
          caps_after_check l (hold requested l).1 requested [] (v.within i l here)
              (check_capacity_each b.ledgers ids requested [] i l r.room m here) refl
              (λ k. omega (arith, hold_counts l k)),
          add-IsDict l.reserved requested (v.dicts i l here),
        ))
        (All-append (IsPlaced (length b.ledgers)) b.reservations _ v.placed
          ((valid, requested-IsDict), tt))
        (λ i l k here. ground (
          arith,
          held-append b.ledgers i k b.reservations (record {
            ledger = self;
            reservation_id = or_fresh given fresh;
            amounts = requested;
            active = true;
          }),
          v.conserved i l k here,
          hold_counts l k,
          r.chain,
        )))

-- Whatever the outcome of `reserve`, no ledger passes a cap, and every ledger still holds what the
-- active reservations of its subtree add up to.
pub reserve-IsValid :
    (fresh : String) (self : ℕ) (raw : List (String × Value)) (given : Option String) (b : Books)
    → IsValid b
    → is_empty_text fresh ≡ false
    → self < length b.ledgers
    → IsValid (reserve fresh self raw given b).1
reserve-IsValid fresh self raw given b v named valid =
    elim (reserve_outcome fresh self raw given b named v.forest valid) [
      | inl r ↦ Reserved-IsValid v valid r
      | inr (e, refused) ↦ rw refused v
    ]
