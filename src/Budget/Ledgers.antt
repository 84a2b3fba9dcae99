-- ===== src/Budget/Ledgers.antt =====
-- src/capabilityhub/budget.py: the objects, and what the methods compute on them.
use capabilityhub.Base.{
  ℕ, zero, suc, ◌+◌, ◌-◌, String, Bool, true, false, ◌||◌, not, Option, none, some, List, [], ◌∷◌,
  ltb, ◌==◌, if◌then◌else◌, ite, text_dec, length, get_elem?, mem,
}
use capabilityhub.Dict.{Dict, text_key, get, put, remove}
use capabilityhub.Errors.{budget_exceeded, value_error, runtime_error, key_error}
use capabilityhub.Result.{Result, ok, raise, raise_if, ◌>>◌}
use capabilityhub.Values.{Value, as_count}

abbrev pub Counts : Type 0
Counts = Dict String ℕ

pub record Ledger : Type 0 where
  pub scope : String
  pub parent : Option ℕ
  pub limits : Counts
  pub used : Counts
  pub reserved : Counts

pub record Reservation : Type 0 where
  pub ledger : ℕ
  pub reservation_id : String
  pub amounts : Counts
  pub active : Bool

pub record Books : Type 0 where
  pub ledgers : List Ledger
  pub reservations : List Reservation

-- `d.get(counter, 0)`
abbrev pub count : String → Counts → ℕ
count c d = elim (get c d) [ none ↦ 0 | some n ↦ n ]

abbrev pub is_empty_text : String → Bool
is_empty_text s = ite (text_dec s "") true false

-- The loop of `_validate_amounts`; `normalized` is what is collected so far.
unfoldable pub validate_from : Bool → Counts → List (String × Value) → Result Counts
validate_from drop_zero normalized [] = ok normalized
validate_from drop_zero normalized ((counter, value) ∷ rest) =
    if is_empty_text counter then raise value_error else elim (as_count value) [
      | none ↦ raise value_error
      | some n ↦
          validate_from drop_zero
            (if not (n == 0) || not drop_zero then put counter n normalized else normalized) rest
    ]

unfoldable pub validate_amounts : Bool → List (String × Value) → Result Counts
unfolding validate_from
validate_amounts drop_zero amounts = validate_from drop_zero [] amounts

-- The loop of `_chain`. `chain` is leaf last, since each ledger is put in front of the ones seen;
-- it holds the members of `seen` too. The fuel bounds the rounds.
unfoldable pub chain_from : ℕ → List Ledger → List ℕ → Option ℕ → Result (List ℕ)
chain_from fuel ledgers chain none = ok chain
chain_from zero ledgers chain (some current) = raise runtime_error
chain_from (suc fuel) ledgers chain (some current) =
    if mem current chain then raise runtime_error else elim (get_elem? ledgers current) [
      | none ↦ raise key_error
      | some l ↦ chain_from fuel ledgers (current ∷ chain) l.parent
    ]

-- `_chain`, root first. No more rounds are made than there are ledgers.
unfoldable pub chain_of : List Ledger → ℕ → Result (List ℕ)
unfolding chain_from
chain_of ledgers self = chain_from (suc (length ledgers)) ledgers [] (some self)

-- `_add`
unfoldable pub add : Counts → Counts → Counts
add target [] = target
add target ((counter, amount) ∷ rest) =
    add (put counter (count counter target + amount) target) rest

-- `_subtract`, on the dict that it changes in place: a raise leaves what was written before.
unfoldable pub subtract : Counts → Counts → Result (Unit {0}) × Counts
subtract [] target = (ok tt, target)
subtract ((counter, amount) ∷ rest) target =
    let remaining = count counter target - amount in
    let target' = if remaining == 0 then remove counter target else put counter remaining target in
    let result = subtract rest target' in
    if ltb (count counter target) amount then (raise runtime_error, target) else result

-- One counter of `_check_capacity`: `used + reserved - replaced + amount > limit`, with the
-- subtraction moved to the other side, since it may pass below 0.
unfoldable pub check_counter : Ledger → Counts → String → ℕ → Result (Unit {0})
check_counter l replaced counter amount = elim (get counter l.limits) [
  | none ↦ ok tt
  | some limit ↦
      let total = count counter l.used + count counter l.reserved + amount in
      raise_if (ltb (limit + count counter replaced) total)
        (budget_exceeded l.scope counter limit (total - count counter replaced))
]

unfoldable pub check_ledger : Ledger → Counts → Counts → Result (Unit {0})
check_ledger l replaced [] = ok tt
check_ledger l replaced ((counter, amount) ∷ rest) =
    check_counter l replaced counter amount >> check_ledger l replaced rest

-- `_check_capacity`
unfoldable pub check_capacity : List Ledger → List ℕ → Counts → Counts → Result (Unit {0})
check_capacity ledgers [] amounts replaced = ok tt
check_capacity ledgers (i ∷ chain) amounts replaced = elim (get_elem? ledgers i) [
  | none ↦ raise key_error
  | some l ↦ check_ledger l replaced amounts >> check_capacity ledgers chain amounts replaced
]
