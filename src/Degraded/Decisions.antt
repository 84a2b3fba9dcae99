-- ===== src/Degraded/Decisions.antt =====
-- src/capabilityhub/degraded.py: the outcome of `decide`, from the required dependencies alone.
use capabilityhub.Base.{
  inl, inr, ℕ, ◌≡◌, refl, ◌∙◌, Bool, true, false, ◌&&◌, ◌||◌, not, none, some, List, [], ◌∷◌, arith,
  Option-cases, if◌then◌else◌,
}
use capabilityhub.Dict.{get}
use capabilityhub.Result.{ok}
use capabilityhub.Degraded.{
  Dependency, dependency_key, Operation, DecisionOutcome, allow, degraded, deny, required,
  DependencyObservation, SafeFallback, DegradedDecision, Observations, Fallbacks, observation_map,
  fallback_map, is_available, assess, fallback_applies, Tally, tally_one, tally_loop, outcome_of,
  empty_tally, decide,
}

module _ (observed : Observations) (fallbacks : Fallbacks) (now : ℕ) where
  -- The dependency is available.
  abbrev pub is_fine : Dependency → Bool
  is_fine d = is_available (assess d (get d observed) now).effective_status

  -- A fallback of the dependency applies.
  abbrev pub falls_back : Dependency → Bool
  falls_back d = elim (get d fallbacks) [
    | none ↦ false
    | some f ↦ fallback_applies f (assess d (get d observed) now)
  ]

  abbrev pub all_fine : List Dependency → Bool
  all_fine [] = true
  all_fine (d ∷ ds) = is_fine d && all_fine ds

  abbrev pub all_covered : List Dependency → Bool
  all_covered [] = true
  all_covered (d ∷ ds) = (is_fine d || falls_back d) && all_covered ds

  -- The outcome that the dependencies call for.
  abbrev pub expected_outcome : List Dependency → DecisionOutcome
  expected_outcome ds =
      if not (all_covered ds) then deny else if all_fine ds then allow else degraded

  assess_named : (d : Dependency) → (assess d (get d observed) now).dependency ≡ d
  unfolding assess
  assess_named d = elim (Option-cases (get d observed)) [
    | inl gone ↦ rw gone refl
    | inr (o, there) ↦ rw there refl
  ]

  module _ (d : Dependency) (t : Tally) where
    abbrev after_one : Tally
    after_one = tally_one fallbacks (assess d (get d observed) now) t

    tally_one_denied : after_one.denied ≡ t.denied || not (is_fine d || falls_back d)
    unfolding tally_one
    tally_one_denied = ground (arith, assess_named d)

    tally_one_degraded :
        after_one.degraded_mode ≡ t.degraded_mode || not (is_fine d) && falls_back d
    unfolding tally_one
    tally_one_degraded = ground (arith, assess_named d)

  -- Some dependency is not available and falls back.
  abbrev pub any_fallback : List Dependency → Bool
  any_fallback [] = false
  any_fallback (d ∷ ds) = not (is_fine d) && falls_back d || any_fallback ds

  loop_denied :
      (ds : List Dependency) (t : Tally)
      → (tally_loop observed fallbacks now ds t).denied ≡ t.denied || not (all_covered ds)
  unfolding tally_loop
  loop_denied [] t = ground arith
  loop_denied (d ∷ ds) t =
      let now_denied = tally_one_denied d t in
      loop_denied ds (after_one d t)
      ∙ rw now_denied (by_cases t.denied (is_fine d || falls_back d) (all_covered ds))
    where
      by_cases : (a b c : Bool) → (a || not b) || not c ≡ a || not (b && c)
      by_cases a b c = ground arith

  loop_degraded :
      (ds : List Dependency) (t : Tally)
      → (tally_loop observed fallbacks now ds t).degraded_mode ≡ t.degraded_mode || any_fallback ds
  unfolding tally_loop
  loop_degraded [] t = ground arith
  loop_degraded (d ∷ ds) t =
      let now_degraded = tally_one_degraded d t in
      loop_degraded ds (after_one d t)
      ∙ rw now_degraded
          (by_cases t.degraded_mode (not (is_fine d) && falls_back d) (any_fallback ds))
    where
      by_cases : (a b c : Bool) → (a || b) || c ≡ a || (b || c)
      by_cases a b c = ground arith

  -- Where all are covered, some fall back exactly if not all are available.
  covered_fine :
      (ds : List Dependency) → all_covered ds ≡ true → any_fallback ds ≡ not (all_fine ds)
  covered_fine [] h = refl
  covered_fine (d ∷ ds) h = ground (arith, covered_fine ds)

  loop_outcome :
      (ds : List Dependency)
      → outcome_of (tally_loop observed fallbacks now ds empty_tally) ≡ expected_outcome ds
  loop_outcome ds =
      ground (arith, loop_denied ds empty_tally, loop_degraded ds empty_tally, covered_fine ds)

-- If the observations name no dependency twice, and the fallbacks of the operation neither, `decide`
-- returns a decision, whose outcome is to deny if some required dependency is neither available nor
-- has a fallback that applies, to allow if all are available, and else to degrade.
pub decide_outcome :
    (now : ℕ) (op : Operation) (observations : List DependencyObservation)
    (safe_fallbacks : List SafeFallback) (observed : Observations) (fallbacks : Fallbacks)
    → observation_map observations ≡ ok observed
    → fallback_map op safe_fallbacks ≡ ok fallbacks
    → (decision : DegradedDecision) × (decide now op observations safe_fallbacks ≡ ok decision)
      × (decision.outcome ≡ expected_outcome observed fallbacks now (required op))
unfolding decide
decide_outcome now op observations safe_fallbacks observed fallbacks seen mapped =
    rw (seen, decide) (rw mapped (_, refl, loop_outcome observed fallbacks now (required op)))
