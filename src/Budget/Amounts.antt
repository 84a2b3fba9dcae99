-- ===== src/Budget/Amounts.antt =====
-- src/capabilityhub/budget.py: what adding, subtracting and checking do to each counter.
use capabilityhub.Base.{
  ℕ, ◌+◌, ◌-◌, ◌≤◌, String, ◌≡◌, refl, inl, inr, Bool, some, List, [], ◌∷◌, arith, ◌==◌,
  if◌then◌else◌, ite, text_dec, Bool-cases, Option-cases, ◌||◌, not,
}
use capabilityhub.Dict.{
  text_key, get, put, remove, IsDict, get-put_self, get-put_ne, get-remove_self, get-remove_ne,
  put-IsDict, remove-IsDict,
}
use capabilityhub.Result.{ok}
use capabilityhub.Values.{Value, as_count}
use capabilityhub.Budget.Ledgers.{
  Counts, Ledger, count, validate_from, validate_amounts, add, subtract, check_counter,
  check_ledger,
}

pub count-put :
    (c k : String) (n : ℕ) (t : Counts) → count k (put c n t) ≡ ite (text_dec c k) n (count k t)
count-put c k n t = ground (arith, get-put_self c n t, get-put_ne c k n t)

pub count-remove :
    (c k : String) (t : Counts) → IsDict t → count k (remove c t) ≡ ite (text_dec c k) 0 (count k t)
count-remove c k t h = ground (arith, get-remove_self c t h, get-remove_ne c k t)

pub add-IsDict : (t a : Counts) → IsDict t → IsDict (add t a)
unfolding add
add-IsDict t [] h = h
add-IsDict t ((c, n) ∷ a) h =
    add-IsDict (put c (count c t + n) t) a (put-IsDict c (count c t + n) t h)

pub count-add : (k : String) (t a : Counts) → IsDict a → count k (add t a) ≡ count k t + count k a
unfolding add
count-add k t [] h = omega arith
count-add k t ((c, n) ∷ a) h =
    ground (arith, count-add k (put c (count c t + n) t) a h.1, count-put c k (count c t + n) t)

-- What is left of a counter after one step of `_subtract`.
abbrev drop_from : Counts → String → ℕ → Counts
drop_from t c n = if count c t - n == 0 then remove c t else put c (count c t - n) t

drop_from-IsDict : (t : Counts) (c : String) (n : ℕ) → IsDict t → IsDict (drop_from t c n)
drop_from-IsDict t c n h = ground (arith, remove-IsDict c t h, put-IsDict c (count c t - n) t h)

count-drop_from :
    (k : String) (t : Counts) (c : String) (n : ℕ)
    → IsDict t
    → count k (drop_from t c n) ≡ ite (text_dec c k) (count c t - n) (count k t)
count-drop_from k t c n h = elim (Bool-cases (count c t - n == 0)) [
  | inl e ↦ rw e (ground (arith, count-remove c k t h))
  | inr e ↦ rw e (count-put c k (count c t - n) t)
]

-- Where each counter holds enough, `_subtract` does not raise, and takes the amounts off.
pub subtract_enough :
    (a t : Counts)
    → IsDict a
    → IsDict t
    → ((k : String) → count k a ≤ count k t)
    → (t' : Counts) × (subtract a t ≡ (ok tt, t'))
      × IsDict t'
      × ((k : String) → count k t' + count k a ≡ count k t)
unfolding subtract
subtract_enough [] t ha ht h = (t, refl, ht, λ k. omega arith)
subtract_enough ((c, n) ∷ a) t ha ht h =
    let (t', done, fine, left) =
      subtract_enough a (drop_from t c n) ha.1 (drop_from-IsDict t c n ht)
        (λ k. ground (arith, h k, h c, count-drop_from k t c n ht)) in
    (
      t',
      ground (arith, h c, done),
      fine,
      λ k. ground (arith, left k, h c, count-drop_from k t c n ht),
    )

pub validate_from-IsDict :
    (drop_zero : Bool) (acc : Counts) (raw : List (String × Value)) {a : Counts}
    → IsDict acc
    → validate_from drop_zero acc raw ≡ ok a
    → IsDict a
unfolding validate_from
validate_from-IsDict z acc [] h e = ground arith
validate_from-IsDict z acc ((c, v) ∷ raw) {a} h e = elim (Option-cases (as_count v)) [
  | inl bad ↦ ground arith
  | inr (n, fine) ↦ ground (
    arith,
    put-IsDict c n acc h,
    validate_from-IsDict z (if not (n == 0) || not z then put c n acc else acc) raw {a = a},
  )
]

-- A check that passes bounds every counter of the ledger that the amounts name.
pub check_ledger_bounds :
    (l : Ledger) (replaced a : Counts) (k : String) (n limit : ℕ)
    → get k a ≡ some n
    → get k l.limits ≡ some limit
    → check_ledger l replaced a ≡ ok tt
    → count k l.used + count k l.reserved + n ≤ limit + count k replaced
unfolding check_ledger check_counter
check_ledger_bounds l replaced [] k n limit h g e = cc
check_ledger_bounds l replaced ((c, m) ∷ a) k n limit h g e =
    ground (arith, check_ledger_bounds l replaced a k n limit)

-- A ledger with room for each of the amounts passes the check.
pub check_ledger_room :
    (l : Ledger) (replaced a : Counts)
    → IsDict a
    → ((k : String) (n limit : ℕ)
        → get k a ≡ some n
        → get k l.limits ≡ some limit
        → count k l.used + count k l.reserved + n ≤ limit + count k replaced)
    → check_ledger l replaced a ≡ ok tt
unfolding check_ledger check_counter
check_ledger_room l replaced [] d room = refl
check_ledger_room l replaced ((c, m) ∷ a) d room =
    let rest =
      check_ledger_room l replaced a d.1 (λ k n limit g. room k n limit (ground (arith, g, d.0))) in
    elim (Option-cases (get c l.limits)) [
      | inl free ↦ ground arith
      | inr (limit, capped) ↦ ground (arith, room c m limit)
    ]

pub validated-IsDict :
    (drop_zero : Bool) (raw : List (String × Value)) {a : Counts}
    → validate_amounts drop_zero raw ≡ ok a
    → IsDict a
unfolding validate_amounts
validated-IsDict z raw e = validate_from-IsDict z [] raw tt e
