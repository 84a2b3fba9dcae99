-- ===== src/Dict.antt =====
-- Python's `dict`, in insertion order: an association list that holds no key twice.
pub mod Rows
use capabilityhub.Base.{
  ◌+◌, ◌≤◌, String, ◌≡◌, refl, ◌≢◌, Bool, true, false, Option, none, some, List, [], ◌∷◌, ◌++◌,
  arith, ite, text_dec, length,
}

-- Keys have a decidable equality.
pub record Key {ℓ} (K : Type ℓ) : Type ℓ where
  pub dec : Discrete K

instance abbrev pub text_key : Key String
text_key = record { dec = text_dec }

-- Pairs of texts.
unfoldable pub pair_dec : Discrete (String × String)
pair_dec a b = elim (text_dec a.0 b.0) [
  | no left ↦ no (λ e. left (λ i. (e i).0))
  | yes left ↦ elim (text_dec a.1 b.1) [
    | no right ↦ no (λ e. right (λ i. (e i).1))
    | yes right ↦ yes (λ i. (left i, right i))
  ]
]

instance abbrev pub pair_key : Key (String × String)
pair_key = record { dec = pair_dec }

abbrev pub Dict {ℓ} : Type ℓ → Type ℓ → Type ℓ
Dict K V = List (K × V)

module _ {ℓ} {K V : Type ℓ} ⦃e : Key K⦄ where
  -- `d.get(k)`
  abbrev pub get : K → Dict K V → Option V
  get k [] = none
  get k ((j, v) ∷ d) = ite (e.dec j k) (some v) (get k d)

  -- `k in d`
  abbrev pub contains : K → Dict K V → Bool
  contains k d = elim (get k d) [ none ↦ false | some _ ↦ true ]

  -- `d[k] = v`: a known key keeps its place, a new one goes to the end.
  abbrev pub put : K → V → Dict K V → Dict K V
  put k v [] = (k, v) ∷ []
  put k v ((j, w) ∷ d) = ite (e.dec j k) ((j, v) ∷ d) ((j, w) ∷ put k v d)

  -- `d.pop(k, None)`
  abbrev pub remove : K → Dict K V → Dict K V
  remove k [] = []
  remove k ((j, w) ∷ d) = ite (e.dec j k) d ((j, w) ∷ remove k d)

  -- No key stands twice.
  abbrev pub IsDict : Dict K V → Type ℓ
  IsDict [] = Unit
  IsDict ((k, v) ∷ d) = (get k d ≡ none) × IsDict d

  pub get-put_self : (k : K) (v : V) (d : Dict K V) → get k (put k v d) ≡ some v
  get-put_self k v [] = ground arith
  get-put_self k v ((j, w) ∷ d) = ground (arith, get-put_self k v d)

  pub get-put_ne : (k q : K) (v : V) (d : Dict K V) → q ≢ k → get q (put k v d) ≡ get q d
  get-put_ne k q v [] h = ground arith
  get-put_ne k q v ((j, w) ∷ d) h = ground (arith, get-put_ne k q v d h)

  pub get-remove_ne : (k q : K) (d : Dict K V) → q ≢ k → get q (remove k d) ≡ get q d
  get-remove_ne k q [] h = refl
  get-remove_ne k q ((j, w) ∷ d) h = ground (arith, get-remove_ne k q d h)

  pub get-remove_self : (k : K) (d : Dict K V) → IsDict d → get k (remove k d) ≡ none
  get-remove_self k [] h = refl
  get-remove_self k ((j, w) ∷ d) h = ground (arith, get-remove_self k d h.1)

  pub put-IsDict : (k : K) (v : V) (d : Dict K V) → IsDict d → IsDict (put k v d)
  put-IsDict k v [] h = (refl, tt)
  put-IsDict k v ((j, w) ∷ d) h = ground (arith, put-IsDict k v d h.1, get-put_ne k j v d)

  pub remove-IsDict : (k : K) (d : Dict K V) → IsDict d → IsDict (remove k d)
  remove-IsDict k [] h = tt
  remove-IsDict k ((j, w) ∷ d) h = ground (arith, remove-IsDict k d h.1, get-remove_ne k j d)

  pub length-remove :
      (k : K) (d : Dict K V) (v : V) → get k d ≡ some v → length (remove k d) + 1 ≡ length d
  length-remove k [] v h = cc
  length-remove k ((j, w) ∷ d) v h = ground (arith, length-remove k d v)

  pub length-put_known :
      (k : K) (d : Dict K V) (v w : V) → get k d ≡ some w → length (put k v d) ≡ length d
  length-put_known k [] v w h = cc
  length-put_known k ((j, u) ∷ d) v w h = ground (arith, length-put_known k d v w)

  pub length-put-le : (k : K) (d : Dict K V) (v : V) → length (put k v d) ≤ length d + 1
  length-put-le k [] v = omega arith
  length-put-le k ((j, u) ∷ d) v = ground (arith, length-put-le k d v)

  -- A key that is new goes to the end.
  pub get-append_last :
      (k q : K) (v : V) (d : Dict K V)
      → get k d ≡ none
      → get q (d ++ (k, v) ∷ []) ≡ ite (e.dec k q) (some v) (get q d)
  get-append_last k q v [] h = refl
  get-append_last k q v ((j, w) ∷ d) h = ground (arith, get-append_last k q v d)

  pub append_last-IsDict :
      (k : K) (v : V) (d : Dict K V) → IsDict d → get k d ≡ none → IsDict (d ++ (k, v) ∷ [])
  append_last-IsDict k v [] h n = (refl, tt)
  append_last-IsDict k v ((j, w) ∷ d) h n =
      ground (arith, append_last-IsDict k v d h.1, get-append_last k j v d)

  pub length-remove_absent :
      (k : K) (d : Dict K V) → get k d ≡ none → length (remove k d) ≡ length d
  length-remove_absent k [] h = refl
  length-remove_absent k ((j, w) ∷ d) h = ground (arith, length-remove_absent k d)

  pub length-put_new :
      (k : K) (d : Dict K V) (v : V) → get k d ≡ none → length (put k v d) ≡ length d + 1
  length-put_new k [] v h = omega arith
  length-put_new k ((j, u) ∷ d) v h = ground (arith, length-put_new k d v)

  pub get-put :
      (k q : K) (v : V) (d : Dict K V) → get q (put k v d) ≡ ite (e.dec k q) (some v) (get q d)
  get-put k q v d = ground (arith, get-put_self k v d, get-put_ne k q v d)

  pub get-remove :
      (k q : K) (d : Dict K V) → IsDict d → get q (remove k d) ≡ ite (e.dec k q) none (get q d)
  get-remove k q d h = ground (arith, get-remove_self k d h, get-remove_ne k q d)
