-- ===== src/Budget.antt =====
-- src/capabilityhub/budget.py: ledgers in a tree of scopes, and reservations against them.
-- A ledger and a reservation are objects that others hold by reference, so both live in a heap, and
-- a reference is a position in it. The locks make each method atomic; what they serialise is a
-- sequence of the calls below.
mod Ledgers
pub mod Amounts
pub mod Chains
pub mod Loops
pub mod Caps
pub mod Holds
pub mod Frames
pub mod Reserving
pub mod Settling
pub mod Histories
pub mod RoundTrips
mod Tests
unfoldable pub use Ledgers.*
use capabilityhub.Base.{
  ℕ, ◌+◌, ◌-◌, String, Bool, true, false, not, Option, none, some, List, [], ◌∷◌, ◌++◌, map, ◌==◌,
  if◌then◌else◌, length, get_elem?, set,
}
use capabilityhub.Dict.{text_key, contains}
use capabilityhub.Errors.{value_error, runtime_error, key_error}
use capabilityhub.Result.{Result, ok, raise, raise_if, or_raise}
use capabilityhub.Exec.{Exec, ◌>>=◌, ◌>>◌, pure, lift, gets, modify}
use capabilityhub.Values.{Value}

pub record Books : Type 0 where
  pub ledgers : List Ledger
  pub reservations : List Reservation

-- `BudgetLedger.__init__`: the new object's reference is the next free position.
unfoldable pub create_ledger : String → List (String × Value) → Option ℕ → Exec Books ℕ
create_ledger scope limits parent = do
  lift (raise_if (is_empty_text scope) value_error)
  normalized ← lift (validate_amounts false limits)
  self ← gets (λ b. length b.ledgers)
  lift (raise_if (elim parent [ none ↦ false | some p ↦ p == self ]) value_error)
  modify (λ b. record b {
    ledgers =
        b.ledgers
        ++ record { scope = scope; parent = parent; limits = normalized; used = []; reserved = [] }
          ∷ [];
  })
  pure self

-- `create_child`
unfoldable pub create_child : ℕ → String → List (String × Value) → Exec Books ℕ
create_child self scope limits = create_ledger scope limits (some self)

-- A call on the ledger `i`, which may raise after it has changed the object.
unfoldable pub with_ledger : ℕ → (Ledger → Result (Unit {0}) × Ledger) → Exec Books (Unit {0})
with_ledger i f b = elim (get_elem? b.ledgers i) [
  | none ↦ (raise key_error, b)
  | some l ↦ let (r, l') = f l in (r, record b { ledgers = set b.ledgers i l' })
]

-- `ledger._add(ledger._reserved, requested)`
abbrev pub hold : Counts → Ledger → Result (Unit {0}) × Ledger
hold requested l = (ok tt, record l { reserved = add l.reserved requested })

-- `ledger._subtract(ledger._reserved, self.amounts)`
abbrev pub free : Counts → Ledger → Result (Unit {0}) × Ledger
free amounts l =
    let (r, reserved') = subtract amounts l.reserved in (r, record l { reserved = reserved' })

-- `ledger._add(ledger._used, charged)`
abbrev pub charge : Counts → Ledger → Result (Unit {0}) × Ledger
charge charged l = (ok tt, record l { used = add l.used charged })

-- `for ledger in chain: body(ledger)`
unfoldable pub for_each : List ℕ → (ℕ → Exec Books (Unit {0})) → Exec Books (Unit {0})
for_each [] body = pure tt
for_each (i ∷ chain) body = do body i; for_each chain body

-- `reservation_id or uuid4().hex`
abbrev pub or_fresh : Option String → String → String
or_fresh none fresh = fresh
or_fresh (some s) fresh = if is_empty_text s then fresh else s

-- `BudgetReservation.__init__`
unfoldable pub create_reservation : ℕ → String → Counts → Exec Books ℕ
create_reservation ledger reservation_id amounts = do
  lift (raise_if (is_empty_text reservation_id) value_error)
  self ← gets (λ b. length b.reservations)
  modify (λ b. record b {
    reservations =
        b.reservations
        ++ record {
          ledger = ledger;
          reservation_id = reservation_id;
          amounts = amounts;
          active = true;
        }
          ∷ [];
  })
  pure self

-- `reserve`; `fresh` is the identifier that `uuid4` makes.
unfoldable pub reserve : String → ℕ → List (String × Value) → Option String → Exec Books ℕ
reserve fresh self amounts reservation_id = do
  requested ← lift (validate_amounts true amounts)
  chain ← gets (λ b. chain_of b.ledgers self)
  ids ← lift chain
  checked ← gets (λ b. check_capacity b.ledgers ids requested [])
  lift checked
  for_each ids (λ i. with_ledger i (hold requested))
  create_reservation self (or_fresh reservation_id fresh) requested

-- The reservation object behind a reference.
unfoldable pub reservation : ℕ → Exec Books Reservation
reservation r b = (or_raise (get_elem? b.reservations r) key_error, b)

-- `self._active = False`
unfoldable pub deactivate : ℕ → Reservation → Exec Books (Unit {0})
deactivate r res b =
    (ok tt, record b { reservations = set b.reservations r (record res { active = false }) })

-- `BudgetReservation.reconcile`
unfoldable pub reconcile : ℕ → List (String × Value) → Exec Books (Unit {0})
reconcile r actual = do
  charged ← lift (validate_amounts true actual)
  res ← reservation r
  chain ← gets (λ b. chain_of b.ledgers res.ledger)
  ids ← lift chain
  lift (raise_if (not res.active) runtime_error)
  checked ← gets (λ b. check_capacity b.ledgers ids charged res.amounts)
  lift checked
  for_each ids (λ i. do with_ledger i (free res.amounts); with_ledger i (charge charged))
  deactivate r res

-- `BudgetReservation.cancel`, and `release`, which is the same method.
unfoldable pub cancel : ℕ → Exec Books (Unit {0})
cancel r = do
  res ← reservation r
  chain ← gets (λ b. chain_of b.ledgers res.ledger)
  ids ← lift chain
  lift (raise_if (not res.active) runtime_error)
  for_each ids (λ i. with_ledger i (free res.amounts))
  deactivate r res

-- `spend`
unfoldable pub spend : String → ℕ → List (String × Value) → Exec Books (Unit {0})
spend fresh self amounts = do r ← reserve fresh self amounts none; reconcile r amounts

pub record BudgetSnapshot : Type 0 where
  pub scope : String
  pub limits : Counts
  pub used : Counts
  pub reserved : Counts
  pub remaining : Counts

-- The keys of a dict that are not yet in the list.
new_keys : List String → Counts → List String
new_keys seen [] = seen
new_keys seen ((k, v) ∷ d) =
    new_keys (if contains {V = ℕ} k (map (λ s. (s, 0)) seen) then seen else seen ++ k ∷ []) d

-- `snapshot` of one ledger. Truncated subtraction is `max(0, …)`.
unfoldable pub snapshot : Ledger → BudgetSnapshot
unfolding new_keys
snapshot l =
    let counters = new_keys (new_keys (new_keys [] l.limits) l.used) l.reserved in
    record {
      scope = l.scope;
      limits = l.limits;
      used = map (λ c. (c, count c l.used)) counters;
      reserved = map (λ c. (c, count c l.reserved)) counters;
      remaining = map (λ e. (e.0, e.1 - count e.0 l.used - count e.0 l.reserved)) l.limits;
    }
