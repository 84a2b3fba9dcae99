-- ===== src/Models/Handles.antt =====
-- src/capabilityhub/models.py: `RehydrationHandle`, a reference to what a load left out.
use capabilityhub.Base.{
  ℕ, String, Bool, true, false, ◌&&◌, ◌||◌, not, Option, none, some, List, [], ◌∷◌, leb, ◌==◌,
  if◌then◌else◌, ite, text_dec, length, codes,
}
use capabilityhub.Errors.{value_error}
use capabilityhub.Result.{Result, ok, raise}

pub data OmissionKind : Type 0 where
  section operation : OmissionKind

pub record RehydrationHandle : Type 0 where
  pub kind : OmissionKind
  pub selector_digest : String
  pub reference : String
  pub expires_at : ℕ

-- What is left of a text after a prefix, if it has the prefix.
unfoldable pub after_prefix : List ℕ → List ℕ → Option (List ℕ)
after_prefix [] ys = some ys
after_prefix (x ∷ xs) [] = none
after_prefix (x ∷ xs) (y ∷ ys) = let rest = after_prefix xs ys in if x == y then rest else none

-- `removeprefix`
abbrev pub remove_prefix : List ℕ → List ℕ → List ℕ
remove_prefix xs ys = elim (after_prefix xs ys) [ none ↦ ys | some zs ↦ zs ]

-- `character in "0123456789abcdef"`
abbrev pub is_hex : ℕ → Bool
is_hex c = (leb 48 c && leb c 57) || (leb 97 c && leb c 102)

abbrev pub all_hex : List ℕ → Bool
all_hex [] = true
all_hex (c ∷ cs) = is_hex c && all_hex cs

-- `RehydrationHandle.__post_init__`, of fields of their types.
unfoldable pub create_handle : RehydrationHandle → Result RehydrationHandle
create_handle h =
    let digest = remove_prefix (codes "sha256:") (codes h.selector_digest) in
    if not (length digest == 64)
      || not (all_hex digest)
      || ite (text_dec h.reference "") true false
      || h.expires_at == 0
    then raise value_error
    else ok h
