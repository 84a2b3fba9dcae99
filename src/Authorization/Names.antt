-- ===== src/Authorization/Names.antt =====
-- src/capabilityhub/authorization.py: what a root, a host and a name in a constraint must look like.
use capabilityhub.Base.{
  ℕ, String, Bool, true, false, ◌&&◌, ◌||◌, not, Option, none, some, List, [], ◌∷◌, ltb, leb, ◌==◌,
  if◌then◌else◌, codes, is_space, mem, length,
}
use capabilityhub.Approvals.{is_empty_text}
use capabilityhub.Errors.{value_error}
use capabilityhub.Result.{Result, ok, raise}
use Prim.Native.Char.{code}

-- What the code calls: paths, where `resolve` may raise an `OSError` or another exception; `str.casefold` and
-- `str.upper`; the address that a text names, and the `idna` encoding of a text that has one; and
-- `sorted`.
pub record Library : Type 0 where
  pub is_absolute : String → Bool
  pub resolve : String → Result String
  pub is_relative_to : String → String → Bool
  pub casefold : String → String
  pub upper : String → String
  pub ip_address : String → Option String
  pub idna : String → Option String
  pub sorted : List String → List String

-- `[a-z0-9]`
abbrev pub is_lower_or_digit : ℕ → Bool
is_lower_or_digit c = leb 97 c && leb c 122 || leb 48 c && leb c 57

-- `[A-Za-z0-9]`
abbrev pub is_letter_or_digit : ℕ → Bool
is_letter_or_digit c = is_lower_or_digit c || leb 65 c && leb c 90

-- The rest of a label after its first character: letters, digits and hyphens, no hyphen last.
unfoldable pub ends_label : List ℕ → Bool
ends_label [] = true
ends_label (c ∷ []) = is_lower_or_digit c
ends_label (c ∷ d ∷ cs) = (is_lower_or_digit c || c == 45) && ends_label (d ∷ cs)

-- `_HOST_LABEL.fullmatch`
unfoldable pub is_label : List ℕ → Bool
is_label [] = false
is_label (c ∷ cs) = is_lower_or_digit c && ends_label cs && leb (length cs) 62

-- The characters `[A-Za-z0-9._:@/+\-]`.
unfoldable pub safe_rest : List ℕ → Bool
safe_rest [] = true
safe_rest (c ∷ cs) =
    (is_letter_or_digit c || mem c (46 ∷ 95 ∷ 58 ∷ 64 ∷ 47 ∷ 43 ∷ 45 ∷ [])) && safe_rest cs

-- `_SAFE_NAME.fullmatch`
unfoldable pub is_safe_name : List ℕ → Bool
is_safe_name [] = false
is_safe_name (c ∷ cs) = is_letter_or_digit c && safe_rest cs && leb (length cs) 255

-- `_name`
unfoldable pub name_of : String → Result String
name_of value = if is_safe_name (codes value) then ok value else raise value_error

abbrev pub first_to : ℕ → List (List ℕ) → List (List ℕ)
first_to c [] = (c ∷ []) ∷ []
first_to c (l ∷ ls) = (c ∷ l) ∷ ls

-- `text.split(".")`
unfoldable pub split_labels : List ℕ → List (List ℕ)
split_labels [] = [] ∷ []
split_labels (c ∷ cs) = let rest = split_labels cs in if c == 46 then [] ∷ rest else first_to c rest

abbrev pub all_labels : List (List ℕ) → Bool
all_labels [] = true
all_labels (l ∷ ls) = is_label l && all_labels ls

-- `value.rstrip(".")`
abbrev pub strip_dots : String → String
strip_dots String.[] = String.[]
strip_dots (String.◌∷◌ c s) =
    let rest = strip_dots s in
    if code c == 46 && is_empty_text rest then String.[] else String.◌∷◌ c rest

-- `any(character.isspace() for character in value)`
unfoldable pub any_space : List ℕ → Bool
any_space [] = false
any_space (c ∷ cs) = is_space c || any_space cs

module _ (lib : Library) where
  -- `_root`
  unfoldable pub root_of : String → Result String
  root_of value = if lib.is_absolute value then lib.resolve value else raise value_error

  -- A host that is no address.
  unfoldable pub encoded_host : Option String → Result String
  encoded_host none = raise value_error
  encoded_host (some encoded) =
      if ltb 253 (length (codes encoded)) || not (all_labels (split_labels (codes encoded)))
      then raise value_error
      else ok encoded

  -- `_host`, of a text. A text with `://` has a slash.
  unfoldable pub host_of : String → Result String
  host_of value =
      let selected = lib.casefold (strip_dots value) in
      if is_empty_text value || any_space (codes value)
      then raise value_error
      else if mem 47 (codes selected) || mem 64 (codes selected)
      then raise value_error
      else elim (lib.ip_address selected) [
        | some address ↦ ok address
        | none ↦ encoded_host (lib.idna selected)
      ]
