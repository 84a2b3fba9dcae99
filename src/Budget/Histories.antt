-- ===== src/Budget/Histories.antt =====
-- src/capabilityhub/budget.py: what every sequence of calls keeps, and calls that undo one another.
use capabilityhub.Base.{
  ◌==◌, get_elem?-append_one, length-append, ℕ, ◌<◌, String, ◌≡◌, refl, ◌⊎◌, inl, inr, true, false,
  Option, none, some, List, [], ◌∷◌, ◌++◌, arith, ◌∙◌, sym, length, get_elem?, All-get, All-map,
  Bool-cases, Option-cases,
}
use capabilityhub.Dict.{text_key}
use capabilityhub.Values.{Value}
use capabilityhub.Errors.{runtime_error}
use capabilityhub.Result.{raise, Result-cases}
use capabilityhub.Budget.{
  Books, Counts, Ledger, Reservation, validate_amounts, free, is_empty_text, reserve, create_ledger,
  reservation, reconcile, cancel,
}
use capabilityhub.Budget.Chains.{IsForest, chain_of-Found}
use capabilityhub.Budget.Caps.{IsPlaced, IsValid}
use capabilityhub.Budget.Holds.{held-append_ledger, held_new}
use capabilityhub.Budget.Reserving.{reserve-IsValid}
use capabilityhub.Budget.Settling.{Cancelled-IsValid, reconcile_active-IsValid}

-- A method that finds no usable reservation raises and changes nothing.
inactive_refused :
    (b : Books) (r : ℕ) (res : Reservation) (actual : List (String × Value))
    → IsValid b
    → get_elem? b.reservations r ≡ some res
    → res.active ≡ false
    → ((cancel r b) ≡ (raise runtime_error, b)) × ((reconcile r actual b).1 ≡ b)
unfolding cancel reconcile reservation
inactive_refused b r res actual v e off =
    let placed = All-get (IsPlaced (length b.ledgers)) b.reservations r v.placed e in
    let found = chain_of-Found b.ledgers res.ledger v.forest placed.0 in
    (
      ground (arith, found.result),
      elim (Result-cases (validate_amounts true actual)) [
        | inr (x, bad) ↦ ground arith
        | inl (charged, fine) ↦ ground (arith, found.result)
      ],
    )

unknown_refused :
    (b : Books) (r : ℕ) (actual : List (String × Value))
    → get_elem? b.reservations r ≡ none
    → ((cancel r b).1 ≡ b) × ((reconcile r actual b).1 ≡ b)
unfolding cancel reconcile reservation
unknown_refused b r actual e = (
  ground arith,
  elim (Result-cases (validate_amounts true actual)) [
    | inr (x, bad) ↦ ground arith
    | inl (charged, fine) ↦ ground arith
  ],
)

pub cancel-IsValid : (b : Books) (r : ℕ) → IsValid b → IsValid (cancel r b).1
cancel-IsValid b r v = elim (Option-cases (get_elem? b.reservations r)) [
  | inl gone ↦ rw (unknown_refused b r [] gone).0 v
  | inr (res, e) ↦ elim (Bool-cases res.active) [
    | inl on ↦ Cancelled-IsValid v r res e on
    | inr off ↦ rw (inactive_refused b r res [] v e off).0 v
  ]
]

pub reconcile-IsValid :
    (b : Books) (r : ℕ) (actual : List (String × Value))
    → IsValid b
    → IsValid (reconcile r actual b).1
reconcile-IsValid b r actual v = elim (Option-cases (get_elem? b.reservations r)) [
  | inl gone ↦ rw (unknown_refused b r actual gone).1 v
  | inr (res, e) ↦ elim (Bool-cases res.active) [
    | inl on ↦ reconcile_active-IsValid v r res e on actual
    | inr off ↦ rw (inactive_refused b r res actual v e off).1 v
  ]
]

module _ (h : List Ledger) (x : Ledger) where
  append-IsForest :
      IsForest h → ((p : ℕ) → x.parent ≡ some p → p < length h) → IsForest (h ++ x ∷ [])
  append-IsForest forest older i p e = elim (Option-cases (get_elem? (h ++ x ∷ []) i)) [
    | inl gone ↦ absurd (ground arith)
    | inr (l, there) ↦ elim (get_elem?-append_one h x i there) [
      | inl old ↦ forest i p (ground arith)
      | inr (last, same) ↦ ground (arith, older p)
    ]
  ]

-- A ledger whose parent exists joins a valid heap.
append-IsValid :
    (b : Books) (x : Ledger)
    → IsValid b
    → ((p : ℕ) → x.parent ≡ some p → p < length b.ledgers)
    → x.used ≡ []
    → x.reserved ≡ []
    → IsValid (record b { ledgers = b.ledgers ++ x ∷ [] })
append-IsValid b x v older unused free = record {
  forest = append-IsForest b.ledgers x v.forest older;
  placed =
      All-map (IsPlaced (length b.ledgers)) (IsPlaced (length (b.ledgers ++ x ∷ []))) b.reservations
        (λ r p. (omega (arith, p.0, length-append b.ledgers (x ∷ [])), p.1)) v.placed;
  within = λ i l g. elim (get_elem?-append_one b.ledgers x i g) [
    | inl old ↦ v.within i l old
    | inr (last, same) ↦ record { caps = λ k limit c. ground arith }
  ];
  dicts = λ i l g. elim (get_elem?-append_one b.ledgers x i g) [
    | inl old ↦ v.dicts i l old
    | inr (last, same) ↦ rw (← same, free) tt
  ];
  conserved = λ i l k g. elim (get_elem?-append_one b.ledgers x i g) [
    | inl old ↦
        v.conserved i l k old
        ∙ sym (held-append_ledger b.ledgers v.forest x i k b.reservations v.placed)
    | inr (last, same) ↦ ground (arith, held_new b.ledgers v.forest x k b.reservations v.placed)
  ];
}

-- A call by a program, which can name only objects that exist.
pub data Step (b : Books) : Books → Type 0 where
  creates :
      (scope : String) (limits : List (String × Value)) (parent : Option ℕ)
      → ((p : ℕ) → parent ≡ some p → p < length b.ledgers)
      → Step b (create_ledger scope limits parent b).1
  reserves :
      (fresh : String) (self : ℕ) (amounts : List (String × Value)) (given : Option String)
      → is_empty_text fresh ≡ false
      → self < length b.ledgers
      → Step b (reserve fresh self amounts given b).1
  reconciles : (r : ℕ) (actual : List (String × Value)) → Step b (reconcile r actual b).1
  cancels : (r : ℕ) → Step b (cancel r b).1

pub data Reach (a : Books) : Books → Type 0 where
  here : Reach a a
  next : {b c : Books} → Reach a b → Step b c → Reach a c

-- The constructor appends one ledger, or raises and appends nothing.
create_ledger_outcome :
    (scope : String) (limits : List (String × Value)) (parent : Option ℕ) (b : Books)
    → ((n : Counts) × ((create_ledger scope limits parent b).1 ≡ record b {
      ledgers =
          b.ledgers
          ++ record { scope = scope; parent = parent; limits = n; used = []; reserved = [] } ∷ [];
    }))
      ⊎ ((create_ledger scope limits parent b).1 ≡ b)
unfolding create_ledger
create_ledger_outcome scope limits parent b = elim (Bool-cases (is_empty_text scope)) [
  | inl empty ↦ inr (ground arith)
  | inr named ↦ elim (Result-cases (validate_amounts false limits)) [
    | inr (e, bad) ↦ inr (ground arith)
    | inl (n, fine) ↦ elim (Option-cases parent) [
      | inl root ↦ inl (n, ground arith)
      | inr (p, child) ↦ elim (Bool-cases (p == length b.ledgers)) [
        | inl own ↦ inr (ground arith)
        | inr other ↦ inl (n, ground arith)
      ]
    ]
  ]
]

create_ledger-IsValid :
    (scope : String) (limits : List (String × Value)) (parent : Option ℕ) (b : Books)
    → IsValid b
    → ((p : ℕ) → parent ≡ some p → p < length b.ledgers)
    → IsValid (create_ledger scope limits parent b).1
create_ledger-IsValid scope limits parent b v older =
    elim (create_ledger_outcome scope limits parent b) [
      | inl (n, made) ↦ rw made (append-IsValid b _ v older refl refl)
      | inr same ↦ rw same v
    ]

pub empty-IsValid : IsValid (record { ledgers = []; reservations = [] })
empty-IsValid = record {
  forest = λ i p e. ground arith;
  placed = tt;
  within = λ i l e. cc;
  dicts = λ i l e. absurd (cc);
  conserved = λ i l k e. cc;
}

Step-IsValid : {b c : Books} → Step b c → IsValid b → IsValid c
Step-IsValid {b} (creates scope limits parent older) v =
    create_ledger-IsValid scope limits parent b v older
Step-IsValid {b} (reserves fresh self amounts given named valid) v =
    reserve-IsValid fresh self amounts given b v named valid
Step-IsValid {b} (reconciles r actual) v = reconcile-IsValid b r actual v
Step-IsValid {b} (cancels r) v = cancel-IsValid b r v

-- After any sequence of create, reserve, reconcile and cancel calls on a valid heap, refused ones
-- included, the heap is valid: no ledger is used and reserved beyond a limit of its own, every parent
-- is older than its child, and each ledger holds in reserve exactly the sum over the active
-- reservations of its subtree.
pub Reach-IsValid : {a b : Books} → IsValid a → Reach a b → IsValid b
Reach-IsValid v here = v
Reach-IsValid v (next r s) = Step-IsValid s (Reach-IsValid v r)
