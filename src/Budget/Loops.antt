-- ===== src/Budget/Loops.antt =====
-- src/capabilityhub/budget.py: `for ledger in chain`, where each round changes one ledger.
use mathlib.Core.Option
use capabilityhub.Base.{
  All, ◌<◌, ℕ, zero, suc, ◌≡◌, refl, true, Option, none, some, List, [], ◌∷◌, arith, ◌==◌,
  if◌then◌else◌, length, get_elem?, set, mem, ap, ◌∙◌,
}
use capabilityhub.Result.{ok}
use capabilityhub.Exec.{Exec}
use capabilityhub.Budget.{Books, Ledger, for_each}
use capabilityhub.Budget.Chains.{get_elem?-some, Ascending, mem-above}

pub get_elem?-set :
    (h : List Ledger) (i j : ℕ) (v : Ledger) {l : Ledger}
    → get_elem? h i ≡ some l
    → get_elem? (set h i v) j ≡ (if i == j then some v else get_elem? h j)
get_elem?-set [] i j v e = cc
get_elem?-set (x ∷ h) zero zero v e = refl
get_elem?-set (x ∷ h) zero (suc j) v e = ground arith
get_elem?-set (x ∷ h) (suc i) zero v e = ground arith
get_elem?-set (x ∷ h) (suc i) (suc j) v e = ground (arith, get_elem?-set h i j v e)

pub set-set : (h : List Ledger) (i : ℕ) (v w : Ledger) → set (set h i v) i w ≡ set h i w
set-set [] i v w = refl
set-set (x ∷ h) zero v w = refl
set-set (x ∷ h) (suc i) v w = ap (◌∷◌ x) (set-set h i v w)

length-set : (h : List Ledger) (i : ℕ) (v : Ledger) → length (set h i v) ≡ length h
length-set [] i v = refl
length-set (x ∷ h) zero v = refl
length-set (x ∷ h) (suc i) v = ap suc (length-set h i v)

-- The body changes the ledger at `i` by `F`, where the ledger meets `P`.
abbrev pub Changes : (ℕ → Exec Books (Unit {0})) → (Ledger → Ledger) → (Ledger → Type 0) → Type 0
Changes body F P =
    (i : ℕ) (l : Ledger) (b : Books)
    → get_elem? b.ledgers i ≡ some l
    → P l
    → body i b ≡ (ok tt, record b { ledgers = set b.ledgers i (F l) })

-- What the loop leaves behind.
pub record Changed (F : Ledger → Ledger) (ids : List ℕ) (h h' : List Ledger) : Type 0 where
  pub at : (i : ℕ) → get_elem? h' i ≡ Option.map (λ l. if mem i ids then F l else l) (get_elem? h i)
  pub long : length h' ≡ length h

abbrev pub Ready : (Ledger → Type 0) → List ℕ → List Ledger → Type 0
Ready P ids h = (i : ℕ) → mem i ids ≡ true → (l : Ledger) × (get_elem? h i ≡ some l) × P l

map_same : (o : Option Ledger) → o ≡ Option.map (λ l. l) o
map_same none = refl
map_same (some l) = refl

for_each_step :
    (body : ℕ → Exec Books (Unit {0})) (x : ℕ) (ids : List ℕ) (b b' : Books)
    → body x b ≡ (ok tt, b')
    → for_each (x ∷ ids) body b ≡ for_each ids body b'
unfolding for_each
for_each_step body x ids b b' e = ground arith

mem_self : (x : ℕ) (ids : List ℕ) → mem x (x ∷ ids) ≡ true
mem_self x ids = ground arith

mem_later : (x i : ℕ) (ids : List ℕ) → mem i ids ≡ true → mem i (x ∷ ids) ≡ true
mem_later x i ids m = ground arith

-- Each ledger of the chain is changed once, and no other.
pub for_each_changes :
    (body : ℕ → Exec Books (Unit {0})) (F : Ledger → Ledger) (P : Ledger → Type 0) (ids : List ℕ)
    (b : Books)
    → Changes body F P
    → Ascending ids
    → Ready P ids b.ledgers
    → (h' : List Ledger) × (for_each ids body b ≡ (ok tt, record b { ledgers = h' }))
      × Changed F ids b.ledgers h'
unfolding for_each
for_each_changes body F P [] b step asc ready =
    (b.ledgers, refl, record { at = λ i. map_same (get_elem? b.ledgers i); long = refl })
for_each_changes body F P (x ∷ ids) b step asc ready =
    let (l, here, p) = ready x (mem_self x ids) in
    let h1 = set b.ledgers x (F l) in
    let (h', done, changed) =
      for_each_changes body F P ids (record b { ledgers = h1 }) step asc.1
        (λ i m.
          let (k, there, q) = ready i (mem_later x i ids m) in
          (k, ground (arith, get_elem?-set b.ledgers x i (F l) here, mem-above x ids asc.0), q)) in
    (
      h',
      for_each_step body x ids b _ (step x l b here p) ∙ done,
      record {
        at = λ i.
            ground
              (arith, changed.at i, get_elem?-set b.ledgers x i (F l) here, mem-above x ids asc.0);
        long = changed.long ∙ length-set b.ledgers x (F l);
      },
    )

mem-lt : (n i : ℕ) (ids : List ℕ) → All (λ j. j < n) ids → mem i ids ≡ true → i < n
mem-lt n i [] v m = cc
mem-lt n i (x ∷ ids) v m = ground (arith, mem-lt n i ids v.1)

-- A loop that may change any ledger is ready for every chain within the heap.
pub Ready-of_valid :
    (P : Ledger → Type 0) (ids : List ℕ) (h : List Ledger)
    → All (λ i. i < length h) ids
    → ((i : ℕ) (l : Ledger) → mem i ids ≡ true → get_elem? h i ≡ some l → P l)
    → Ready P ids h
Ready-of_valid P ids h v fits i m =
    let (l, here) = get_elem?-some h i (mem-lt (length h) i ids v m) in (l, here, fits i l m here)
