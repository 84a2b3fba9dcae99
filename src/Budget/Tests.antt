-- ===== src/Budget/Tests.antt =====
-- src/capabilityhub/budget.py: runs of the methods, and the theorems at concrete heaps.
use capabilityhub.Base.{ℕ, String, ◌≡◌, refl, ◌⊎◌, true, none, some, List, [], ◌∷◌, arith, text_dec}
use capabilityhub.Errors.{Exc, budget_exceeded, runtime_error}
use capabilityhub.Result.{ok, raise}
use capabilityhub.Values.{Value, integer}
use capabilityhub.Budget.{
  Books, Counts, Ledger, create_ledger, chain_of, reserve, reconcile, cancel, spend, snapshot,
  check_ledger, check_counter, validate_amounts, add, subtract, check_capacity, with_ledger,
  for_each, create_reservation, reservation, deactivate,
}
use capabilityhub.Budget.Chains.{Found, chain_of-Found}
use capabilityhub.Budget.Caps.{IsValid}
use capabilityhub.Budget.Histories.{Reach, here, next, creates, empty-IsValid, Reach-IsValid}
use capabilityhub.Budget.RoundTrips.{Undone, Charged, cancel-reserve, spend_outcome}

program : Unit {0}
unfolding create_ledger chain_of check_ledger check_counter reserve reconcile cancel spend snapshot
    validate_amounts add subtract check_capacity with_ledger for_each create_reservation reservation
    deactivate text_dec
program = tt

abbrev empty : Books
empty = record { ledgers = []; reservations = [] }

-- A tenant with 10 calls, and a task of it with no limit of its own.
abbrev tenant : Ledger
tenant = record {
  scope = "tenant";
  parent = none;
  limits = ("calls", 10) ∷ [];
  used = [];
  reserved = [];
}

abbrev task : Ledger
task = record { scope = "task"; parent = some 0; limits = []; used = []; reserved = [] }

abbrev two : Books
two = record { ledgers = tenant ∷ task ∷ []; reservations = [] }

abbrev four_calls : List (String × Value)
four_calls = ("calls", integer 4) ∷ ("tokens", integer 0) ∷ []

abbrev held_four : Books
held_four = record {
  ledgers =
      record tenant { reserved = ("calls", 4) ∷ [] }
      ∷ record task { reserved = ("calls", 4) ∷ [] }
      ∷ [];
  reservations =
      record { ledger = 1; reservation_id = "r"; amounts = ("calls", 4) ∷ []; active = true } ∷ [];
}

create_two :
    (create_ledger "tenant" (("calls", integer 10) ∷ []) none empty).1
    ≡ record two { ledgers = tenant ∷ [] }
unfolding program
create_two = refl

reserve_four : reserve "r" 1 four_calls none two ≡ (ok 0, held_four)
unfolding program
reserve_four = refl

-- A child without a limit is stopped by its parent's.
parent_stops :
    (reserve "r" 1 (("calls", integer 7) ∷ []) none held_four).0
    ≡ raise (budget_exceeded "tenant" "calls" 10 11)
unfolding program
parent_stops = refl

spend_four :
    (spend "r" 1 four_calls two).1.ledgers
    ≡ record tenant { used = ("calls", 4) ∷ [] } ∷ record task { used = ("calls", 4) ∷ [] } ∷ []
unfolding program
spend_four = refl

cancelled_twice : (cancel 0 (cancel 0 held_four).1).0 ≡ raise runtime_error
unfolding program
cancelled_twice = refl

snapshot_four :
    (snapshot (record tenant { reserved = ("calls", 4) ∷ [] })).remaining ≡ ("calls", 6) ∷ []
unfolding program
snapshot_four = refl

two_reached : Reach empty two
unfolding program
two_reached =
    next (next here (creates "tenant" (("calls", integer 10) ∷ []) none (λ p e. ground arith)))
      (creates "task" [] (some 0) (λ p e. ground arith))

two-IsValid : IsValid two
two-IsValid = Reach-IsValid empty-IsValid two_reached

Reach-IsValid_example : IsValid two
Reach-IsValid_example = Reach-IsValid empty-IsValid two_reached

chain_of-Found_example : Found two.ledgers (chain_of two.ledgers 1) 1
chain_of-Found_example = chain_of-Found two.ledgers 1 two-IsValid.forest (omega arith)

cancel-reserve_example : Undone two (cancel 0 held_four)
unfolding program
cancel-reserve_example =
    cancel-reserve "r" 1 four_calls none two held_four 0 two-IsValid refl (omega arith) reserve_four

spend_outcome_example :
    ((amounts : Counts) × (ids : List ℕ) × (validate_amounts true four_calls ≡ ok amounts)
      × (chain_of two.ledgers 1 ≡ ok ids)
      × Charged two ids amounts (spend "r" 1 four_calls two))
    ⊎ ((x : Exc) × (spend "r" 1 four_calls two ≡ (raise x, two)))
unfolding text_dec
spend_outcome_example = spend_outcome "r" 1 four_calls two two-IsValid refl (omega arith)
