-- ===== src/Sets.antt =====
-- Python's sets of texts, as the list of their elements, and `sorted`, which is a parameter.
use capabilityhub.Base.{
  String, ◌≡◌, refl, ◌∙◌, ◌↔◌, inl, inr, Bool, true, false, ◌&&◌, not, List, [], ◌∷◌, arith,
  Bool-cases, if◌then◌else◌, ite, text_dec,
}

-- `x in xs`
abbrev pub has_text : String → List String → Bool
has_text x [] = false
has_text x (y ∷ ys) = ite (text_dec y x) true (has_text x ys)

-- `set(xs) - set(ys)`, and `set(xs) & set(ys)`, of texts without duplicates.
unfoldable pub without : List String → List String → List String
without [] ys = []
without (x ∷ xs) ys = let rest = without xs ys in if has_text x ys then rest else x ∷ rest

unfoldable pub common : List String → List String → List String
common [] ys = []
common (x ∷ xs) ys = let rest = common xs ys in if has_text x ys then x ∷ rest else rest

abbrev pub is_empty : List String → Bool
is_empty [] = true
is_empty (x ∷ xs) = false

-- What the code relies on: `sorted` returns the texts that it is given.
abbrev pub IsSorting : (List String → List String) → Type 0
IsSorting sorted = (xs : List String) (x : String) → has_text x (sorted xs) ≡ has_text x xs

-- Every text of the first list stands in the second.
abbrev pub Within : List String → List String → Type 0
Within xs ys = (x : String) → has_text x xs ≡ true → has_text x ys ≡ true

pub has_text_first : (x : String) (xs : List String) → has_text x (x ∷ xs) ≡ true
has_text_first x xs = ground arith

has_text-without :
    (x : String) (xs ys : List String)
    → has_text x (without xs ys) ≡ has_text x xs && not (has_text x ys)
unfolding without
has_text-without x [] ys = refl
has_text-without x (z ∷ xs) ys = ground (arith, has_text-without x xs ys)

empty_none : (xs : List String) → is_empty xs ≡ true → (x : String) → has_text x xs ≡ false
empty_none [] e x = refl
empty_none (z ∷ xs) e x = absurd (cc)

none_empty : (xs : List String) → ((x : String) → has_text x xs ≡ false) → is_empty xs ≡ true
none_empty [] h = refl
none_empty (z ∷ xs) h = absurd (clash (has_text_first z xs) (h z))
  where
    clash : {b : Bool} → b ≡ true → b ≡ false → ⊥
    clash t f = cc

-- Nothing is missing exactly when the required texts are supported.
pub missing_none :
    (sorted : List String → List String)
    → IsSorting sorted
    → (required supported : List String)
    → (is_empty (sorted (without required supported)) ≡ true) ↔ Within required supported
missing_none sorted s required supported = (
  λ e x r.
      let gone = empty_none (sorted (without required supported)) e x in
      let kept = s (without required supported) x in
      let split = has_text-without x required supported in ground arith,
  λ w. none_empty (sorted (without required supported)) (λ x.
      s (without required supported) x ∙ has_text-without x required supported ∙ by_within x (w x)),
)
  where
    by_within :
        (x : String)
        → (has_text x required ≡ true → has_text x supported ≡ true)
        → has_text x required && not (has_text x supported) ≡ false
    by_within x w = elim (Bool-cases (has_text x required)) [
      | inl there ↦ let known = w there in ground arith
      | inr absent ↦ ground arith
    ]

pub has_text-common :
    (x : String) (xs ys : List String) → has_text x (common xs ys) ≡ has_text x xs && has_text x ys
unfolding common
has_text-common x [] ys = refl
has_text-common x (z ∷ xs) ys = ground (arith, has_text-common x xs ys)
