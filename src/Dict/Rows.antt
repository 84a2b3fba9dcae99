-- ===== src/Dict/Rows.antt =====
-- Dictionaries whose values only change along a relation, and updates in place.
use capabilityhub.Base.{
  ◌≡◌, ◌≢◌, refl, sym, ap, ◌∙◌, subst, inl, inr, none, some, [], ◌∷◌, arith, ite, Option-cases,
}
use capabilityhub.Dict.{Dict, Key, get, put, get-put, get-put_self, get-put_ne, IsDict, put-IsDict}

module _ {K V : Type 0} ⦃e : Key K⦄ where
  -- `UPDATE … WHERE key = ?`
  abbrev pub alter : K → (V → V) → Dict K V → Dict K V
  alter k f d = elim (get k d) [ none ↦ d | some v ↦ put k (f v) d ]

  -- `UPDATE …` of all rows.
  abbrev pub map_values : (V → V) → Dict K V → Dict K V
  map_values f [] = []
  map_values f ((k, v) ∷ d) = (k, f v) ∷ map_values f d

  pub get-map_values-some :
      (f : V → V) (d : Dict K V) (k : K) (v : V)
      → get k d ≡ some v
      → get k (map_values f d) ≡ some (f v)
  get-map_values-some f [] k v i = absurd (cc)
  get-map_values-some f ((j, w) ∷ d) k v i = ground (arith, get-map_values-some f d k v)

  pub get-map_values_none :
      (f : V → V) (d : Dict K V) (k : K) → get k d ≡ none → get k (map_values f d) ≡ none
  get-map_values_none f [] k i = refl
  get-map_values_none f ((j, w) ∷ d) k i = ground (arith, get-map_values_none f d k)

  pub get-alter :
      (k q : K) (f : V → V) (d : Dict K V) (v : V)
      → get k d ≡ some v
      → get q (alter k f d) ≡ ite (e.dec k q) (some (f v)) (get q d)
  get-alter k q f d v i = rw (i, alter) (get-put k q (f v) d)

  pub alter_absent : (k : K) (f : V → V) (d : Dict K V) → get k d ≡ none → alter k f d ≡ d
  alter_absent k f d i = rw (i, alter) refl

  pub alter_known :
      (k : K) (f : V → V) (d : Dict K V) (v : V) → get k d ≡ some v → alter k f d ≡ put k (f v) d
  alter_known k f d v i = rw (i, alter) refl

  pub get-alter_ne : (k q : K) (f : V → V) (d : Dict K V) → q ≢ k → get q (alter k f d) ≡ get q d
  get-alter_ne k q f d h = elim (Option-cases (get k d)) [
    | inl gone ↦ ap (get q) (alter_absent k f d gone)
    | inr (v, there) ↦ ap (get q) (alter_known k f d v there) ∙ get-put_ne k q (f v) d h
  ]

  pub get-alter_self :
      (k : K) (f : V → V) (d : Dict K V) (v : V)
      → get k d ≡ some v
      → get k (alter k f d) ≡ some (f v)
  get-alter_self k f d v i = ap (get k) (alter_known k f d v i) ∙ get-put_self k (f v) d

  pub alter-IsDict : (k : K) (f : V → V) (d : Dict K V) → IsDict d → IsDict (alter k f d)
  alter-IsDict k f d h = elim (Option-cases (get k d)) [
    | inl gone ↦ subst IsDict (sym (alter_absent k f d gone)) h
    | inr (v, there) ↦ subst IsDict (sym (alter_known k f d v there)) (put-IsDict k (f v) d h)
  ]

  module _ (R : V → V → Type 0) where
    -- Every row is still there, changed along the relation.
    abbrev pub Rows : Dict K V → Dict K V → Type 0
    Rows d d' = (k : K) (v : V) → get k d ≡ some v → (w : V) × (get k d' ≡ some w) × R v w

    pub Rows-refl : ((v : V) → R v v) → (d : Dict K V) → Rows d d
    Rows-refl same d k v i = (v, i, same v)

    pub Rows-trans :
        ((u v w : V) → R u v → R v w → R u w) → (a b c : Dict K V) → Rows a b → Rows b c → Rows a c
    Rows-trans trans a b c p q k u i =
        let (v, j, r) = p k u i in let (w, l, s) = q k v j in (w, l, trans u v w r s)

    pub Rows-put :
        ((v : V) → R v v)
        → (k : K) (w : V) (d : Dict K V) → ((v : V) → get k d ≡ some v → R v w)
        → Rows d (put k w d)
    Rows-put same k w d h q v i = elim (e.dec k q) [
      | yes here ↦
          (w, ground (arith, get-put k q w d), h v (subst (λ x. get x d ≡ some v) (sym here) i))
      | no other ↦ (v, ground (arith, get-put k q w d), same v)
    ]

    pub Rows-alter :
        ((v : V) → R v v)
        → (k : K) (f : V → V) (d : Dict K V) → ((v : V) → get k d ≡ some v → R v (f v))
        → Rows d (alter k f d)
    Rows-alter same k f d h = elim (Option-cases (get k d)) [
      | inl gone ↦ subst (Rows d) (sym (alter_absent k f d gone)) (Rows-refl same d)
      | inr (v, there) ↦
          subst (Rows d) (sym (alter_known k f d v there))
            (Rows-put same k (f v) d (λ u i. subst (λ x. R x (f v)) (one v u there i) (h v there)))
    ]
      where
        one : (a b : V) → get k d ≡ some a → get k d ≡ some b → a ≡ b
        one a b p q = cc

    pub Rows-map : (f : V → V) (d : Dict K V) → ((v : V) → R v (f v)) → Rows d (map_values f d)
    Rows-map f d h k v i = (f v, get-map_values-some f d k v i, h v)

  pub put-put : (k : K) (v w : V) (d : Dict K V) → put k w (put k v d) ≡ put k w d
  put-put k v w [] = ground arith
  put-put k v w ((j, u) ∷ d) = ground (arith, put-put k v w d)

  -- Writing what is there changes nothing.
  pub put_same : (k : K) (v : V) (d : Dict K V) → get k d ≡ some v → put k v d ≡ d
  put_same k v [] i = absurd (cc)
  put_same k v ((j, w) ∷ d) i = ground (arith, put_same k v d)
