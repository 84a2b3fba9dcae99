-- ===== src/Residency/Evictions.antt =====
-- src/capabilityhub/residency.py: the loop of `_evict_to_limit`.
use capabilityhub.Base.{
  ℕ, zero, suc, ◌≤◌, String, ◌≡◌, ◌≢◌, refl, ◌∙◌, subst, inl, inr, true, false, Option, none, some,
  List, [], ◌∷◌, arith, Bool-cases, Option-cases, if◌then◌else◌, length, leb, All, All-map,
}
use capabilityhub.Dict.{text_key, get, remove, IsDict, length-remove, get-remove_ne, remove-IsDict}
use capabilityhub.Errors.{runtime_error}
use capabilityhub.Result.{Result, ok, raise}
use capabilityhub.Residency.{
  ResidentSection, Eviction, Entries, used_tokens, is_candidate, first_out, victim_from, evict_loop,
  evicted, prepend, evicts_before,
}

-- No key stands twice, and each entry under its own.
pub record IsKeyed (d : Entries) : Type 0 where
  pub dict : IsDict d
  pub own : All (λ x. x.0 ≡ x.1.key) d

-- An entry of the dict is found under its key.
entries_found :
    (d : Entries) → IsDict d → All (λ x. x.0 ≡ x.1.key) d → All (λ x. get x.1.key d ≡ some x.1) d
entries_found [] h o = tt
entries_found ((k, e) ∷ d) h o = (
  ground (arith, o.0),
  All-map (λ x. get x.1.key d ≡ some x.1) (λ x. get x.1.key ((k, e) ∷ d) ≡ some x.1) d
      (λ x f. ground (arith, h.0)) (entries_found d h.1 o.1),
)

module _ (exclude : String) (P : ResidentSection → Type 0) where
  -- The better of two candidates.
  either :
      (o : Option ResidentSection) (z y : ResidentSection)
      → ((c : ResidentSection) → o ≡ some c → P c × (is_candidate exclude c ≡ true))
      → P z
      → is_candidate exclude z ≡ true
      → some (first_out o z) ≡ some y
      → P y × (is_candidate exclude y ≡ true)
  either none z y c p f i =
      let same : z ≡ y = cc in subst (λ w. P w × (is_candidate exclude w ≡ true)) same (p, f)
  either (some b) z y c p f i = elim (Bool-cases (evicts_before z b)) [
    | inl sooner ↦
        let same : z ≡ y = ground arith in
        subst (λ w. P w × (is_candidate exclude w ≡ true)) same (p, f)
    | inr later ↦
        let same : b ≡ y = ground arith in
        subst (λ w. P w × (is_candidate exclude w ≡ true)) same (c b refl)
  ]

  victim-candidate :
      (best : Option ResidentSection) (d : Entries) (v : ResidentSection)
      → ((b : ResidentSection) → best ≡ some b → P b × (is_candidate exclude b ≡ true))
      → All (λ x. P x.1) d
      → victim_from exclude best d ≡ some v
      → P v × (is_candidate exclude v ≡ true)
  unfolding victim_from
  victim-candidate best [] v b a e = b v e
  victim-candidate best ((k, x) ∷ d) v b a e = elim (Bool-cases (is_candidate exclude x)) [
    | inl fits ↦
        victim-candidate (some (first_out best x)) d v (λ y i. either best x y b a.0 fits i) a.1
          (subst (λ c. victim_from exclude (if c then some (first_out best x) else best) d ≡ some v)
            fits e)
    | inr kept ↦ victim-candidate best d v b a.1 (
        subst (λ c. victim_from exclude (if c then some (first_out best x) else best) d ≡ some v)
          kept e)
  ]

remove-own :
    (k : String) (d : Entries) → All (λ x. x.0 ≡ x.1.key) d → All (λ x. x.0 ≡ x.1.key) (remove k d)
remove-own k [] o = tt
remove-own k ((j, e) ∷ d) o = ground (arith, remove-own k d o.1, o.0, o.1)

pub remove-IsKeyed : (k : String) (d : Entries) → IsKeyed d → IsKeyed (remove k d)
remove-IsKeyed k d v = record { dict = remove-IsDict k d v.dict; own = remove-own k d v.own }

-- The victim is an entry of the dict that may go.
victim-found :
    (exclude : String) (d : Entries) (v : ResidentSection)
    → IsKeyed d
    → victim_from exclude none d ≡ some v
    → (get v.key d ≡ some v) × (is_candidate exclude v ≡ true)
victim-found exclude d v k e =
    victim-candidate exclude (λ w. get w.key d ≡ some w) none d v (λ b i. absurd (cc))
      (entries_found d k.dict k.own) e

-- What the loop leaves: it ends for another reason than want of fuel; the entries fit if it does not
-- raise; and an entry that is pinned or excluded stays.
pub record Shrunk (limit : ℕ) (exclude : String) (d : Entries)
    (p : Result (List Eviction) × Entries) : Type 0 where
  pub never : p.0 ≢ raise runtime_error
  pub fits : (vs : List Eviction) → p.0 ≡ ok vs → used_tokens p.1 ≤ limit
  pub keyed : IsKeyed p.1
  pub keeps :
      (q : String) (x : ResidentSection)
      → get q d ≡ some x
      → is_candidate exclude x ≡ false
      → get q p.1 ≡ some x

module _ (limit : ℕ) (exclude : String) where
  Shrunk-prepend :
      (d : Entries) (v : ResidentSection) (p : Result (List Eviction) × Entries)
      → get v.key d ≡ some v
      → is_candidate exclude v ≡ true
      → Shrunk limit exclude (remove v.key d) p
      → Shrunk limit exclude d (prepend (evicted v) p)
  Shrunk-prepend d v (r, t) found goes s = record {
    never = by_result r s.never;
    fits = λ vs e. fitting r s.fits vs e;
    keyed = keyed_after r s.keyed;
    keeps = λ q x i stays.
        kept_after r q x
          (s.keeps q x (get-remove_ne v.key q d (λ same. other q x same i stays) ∙ i) stays);
  }
    where
      other :
          (q : String) (x : ResidentSection)
          → q ≡ v.key
          → get q d ≡ some x
          → is_candidate exclude x ≡ false
          → ⊥
      other q x same i stays =
          let here : get v.key d ≡ some x = subst (λ k. get k d ≡ some x) same i in
          let one : x ≡ v = cc in cc

      by_result :
          (r : Result (List Eviction))
          → r ≢ raise runtime_error
          → (prepend (evicted v) (r, t)).0 ≢ raise runtime_error
      by_result (ok vs) n e = cc
      by_result (raise x) n e = n e

      fitting :
          (r : Result (List Eviction))
          → ((vs : List Eviction) → r ≡ ok vs → used_tokens t ≤ limit)
          → (vs : List Eviction) → (prepend (evicted v) (r, t)).0 ≡ ok vs
          → used_tokens (prepend (evicted v) (r, t)).1 ≤ limit
      fitting (ok us) f vs e = f us refl
      fitting (raise x) f vs e = absurd (cc)

      keyed_after :
          (r : Result (List Eviction)) → IsKeyed t → IsKeyed (prepend (evicted v) (r, t)).1
      keyed_after (ok us) k = k
      keyed_after (raise x) k = k

      kept_after :
          (r : Result (List Eviction)) (q : String) (x : ResidentSection)
          → get q t ≡ some x
          → get q (prepend (evicted v) (r, t)).1 ≡ some x
      kept_after (ok us) q x i = i
      kept_after (raise y) q x i = i

  -- The loop, with as much fuel as there are entries.
  pub evict_loop-Shrunk :
      (fuel : ℕ) (d : Entries)
      → IsKeyed d
      → length d ≤ fuel
      → Shrunk limit exclude d (evict_loop fuel limit exclude d)
  unfolding evict_loop
  evict_loop-Shrunk zero [] k le = record {
    never = λ e. ground arith;
    fits = λ vs e. ground arith;
    keyed = ground (arith, k);
    keeps = λ q x i stays. absurd (cc);
  }
  evict_loop-Shrunk zero (x ∷ d) k le = absurd (omega arith)
  evict_loop-Shrunk (suc fuel) d k le = elim (Bool-cases (leb (used_tokens d) limit)) [
    | inl small ↦
        rw (small, evict_loop)
          (record {
            never = λ e. cc;
            fits = λ vs e. ground arith;
            keyed = k;
            keeps = λ q x i stays. i;
          })
    | inr large ↦ elim (Option-cases (victim_from exclude none d)) [
      | inl full ↦
          rw (large, evict_loop)
            (rw full (record {
              never = λ e. cc;
              fits = λ vs e. absurd (cc);
              keyed = k;
              keeps = λ q x i stays. i;
            }))
      | inr (v, e) ↦
          let (found, goes) = victim-found exclude d v k e in
          rw (large, evict_loop)
            (rw e (
              Shrunk-prepend d v (evict_loop fuel limit exclude (remove v.key d)) found goes (
                evict_loop-Shrunk fuel (remove v.key d) (remove-IsKeyed v.key d k)
                  (let one = length-remove v.key d v found in omega arith))))
    ]
  ]
