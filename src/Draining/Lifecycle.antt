-- ===== src/Draining/Lifecycle.antt =====
-- src/capabilityhub/draining.py: no call takes a lifecycle state back.
use capabilityhub.Base.{ℕ, ◌≤◌, String, ◌≡◌, refl, sym, subst, Option, some, arith}
use capabilityhub.Dict.{pair_key, Dict, Key, text_key, get, put, get-put}
use capabilityhub.Draining.{
  LifecycleState, accepting, draining, retired, RevisionKey, Controller, set_revision,
  set_coordinate,
}
use capabilityhub.Draining.Outcomes.{Same, same}

-- Accepting, then draining, then retired.
unfoldable pub rank : LifecycleState → ℕ
rank accepting = 0
rank draining = 1
rank retired = 2

-- Every key is still there, in the same state or a later one.
abbrev pub IsLater :
    {K : Type 0} → ⦃e : Key K⦄ → Dict K LifecycleState → Dict K LifecycleState → Type 0
IsLater {K} d d' =
    (k : K) (s : LifecycleState)
    → get k d ≡ some s
    → (t : LifecycleState) × (get k d' ≡ some t) × (rank s ≤ rank t)

pub record Later (d d' : Controller) : Type 0 where
  pub revisions : IsLater d.revisions d'.revisions
  pub coordinates : IsLater d.coordinates d'.coordinates
  pub sequence : d.sequence ≤ d'.sequence

module _ {K : Type 0} ⦃e : Key K⦄ where
  IsLater-same : (d d' : Dict K LifecycleState) → d' ≡ d → IsLater d d'
  IsLater-same d d' p k s i = (s, rw p i, omega arith)

  IsLater-trans : (d d' d'' : Dict K LifecycleState) → IsLater d d' → IsLater d' d'' → IsLater d d''
  IsLater-trans d d' d'' a b k s i =
      let (t, j, le) = a k s i in let (u, l, le') = b k t j in (u, l, omega arith)

  put-IsLater :
      (k : K) (s : LifecycleState) (d : Dict K LifecycleState)
      → ((t : LifecycleState) → get k d ≡ some t → rank t ≤ rank s)
      → IsLater d (put k s d)
  put-IsLater k s d up q t i = elim (e.dec k q) [
    | yes here ↦
        (s, ground (arith, get-put k q s d), up t (subst (λ x. get x d ≡ some t) (sym here) i))
    | no other ↦ (t, ground (arith, get-put k q s d), omega arith)
  ]

pub Later-unmoved :
    (d d' : Controller)
    → d'.revisions ≡ d.revisions
    → d'.coordinates ≡ d.coordinates
    → d.sequence ≤ d'.sequence
    → Later d d'
Later-unmoved d d' r c n = record {
  revisions = IsLater-same d.revisions d'.revisions r;
  coordinates = IsLater-same d.coordinates d'.coordinates c;
  sequence = n;
}

pub Later-Same : (d d' : Controller) → Same d d' → Later d d'
Later-Same d d' s = record {
  revisions = IsLater-same d.revisions d'.revisions s.revisions;
  coordinates = IsLater-same d.coordinates d'.coordinates s.coordinates;
  sequence = s.sequence;
}

pub Later-refl : (d : Controller) → Later d d
Later-refl d = Later-Same d d (same d)

pub Later-trans : (a b c : Controller) → Later a b → Later b c → Later a c
Later-trans a b c p q = record {
  revisions = IsLater-trans a.revisions b.revisions c.revisions p.revisions q.revisions;
  coordinates = IsLater-trans a.coordinates b.coordinates c.coordinates p.coordinates q.coordinates;
  sequence = omega (arith, p.sequence, q.sequence);
}

pub set_revision-Later :
    (key : RevisionKey) (s : LifecycleState) (d d' : Controller)
    → ((t : LifecycleState) → get key d.revisions ≡ some t → rank t ≤ rank s)
    → Same (set_revision key s d) d'
    → Later d d'
set_revision-Later key s d d' up h =
    Later-trans d (set_revision key s d) d'
      (record {
        revisions = put-IsLater key s d.revisions up;
        coordinates = IsLater-same d.coordinates d.coordinates refl;
        sequence = omega arith;
      })
      (Later-Same (set_revision key s d) d' h)

pub set_coordinate-Later :
    (c : String) (s : LifecycleState) (d d' : Controller)
    → ((t : LifecycleState) → get c d.coordinates ≡ some t → rank t ≤ rank s)
    → Same (set_coordinate c s d) d'
    → Later d d'
set_coordinate-Later c s d d' up h =
    Later-trans d (set_coordinate c s d) d'
      (record {
        revisions = IsLater-same d.revisions d.revisions refl;
        coordinates = put-IsLater c s d.coordinates up;
        sequence = omega arith;
      })
      (Later-Same (set_coordinate c s d) d' h)

pub rank-le_retired : (t : LifecycleState) → rank t ≤ rank retired
unfolding rank
rank-le_retired accepting = omega arith
rank-le_retired draining = omega arith
rank-le_retired retired = omega arith

-- From a state that is known.
pub rank_known :
    {x : Option LifecycleState} (s u : LifecycleState)
    → x ≡ some s
    → rank s ≤ rank u
    → (t : LifecycleState) → x ≡ some t
    → rank t ≤ rank u
rank_known s u e le t i = let eq : s ≡ t = cc in subst (λ x. rank x ≤ rank u) eq le
