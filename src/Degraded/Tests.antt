-- ===== src/Degraded/Tests.antt =====
-- src/capabilityhub/degraded.py: a search with a stale index, and the theorems at it.
use capabilityhub.Base.{◌+◌, ◌≤◌, ◌≡◌, refl, ◌↔◌, some, [], ◌∷◌}
use capabilityhub.Result.{ok}
use capabilityhub.Degraded.{
  search_operation, registry, index, available, stale, DependencyObservation, SafeFallback,
  DegradedDecision, Observations, Fallbacks, required, decide, effective, observe_from,
  fallbacks_from, tally_loop, tally_one, assess, fallback_applies, degraded, dependency_dec,
  status_dec, operation_dec,
}
use capabilityhub.Degraded.Freshness.{effective-available}
use capabilityhub.Degraded.Decisions.{expected_outcome, decide_outcome}

program : Unit {0}
unfolding decide effective observe_from fallbacks_from tally_loop tally_one assess fallback_applies
    dependency_dec status_dec operation_dec
program = tt

abbrev seen_registry : DependencyObservation
seen_registry = record {
  dependency = registry;
  status = available;
  observed_at = 90;
  ttl_seconds = 30;
}

abbrev seen_index : DependencyObservation
seen_index = record { dependency = index; status = available; observed_at = 10; ttl_seconds = 30 }

abbrev old_index : SafeFallback
old_index = record {
  operation = search_operation;
  dependency = index;
  name = "cached";
  statuses = stale ∷ [];
  max_age_seconds = some 100;
}

abbrev observed : Observations
observed = (registry, seen_registry) ∷ (index, seen_index) ∷ []

abbrev fallbacks : Fallbacks
fallbacks = (index, old_index) ∷ []

effective-available_example :
    (effective seen_registry 100 ≡ available)
    ↔ ((available ≡ available) × (90 ≤ 100) × (100 ≤ 90 + 30))
effective-available_example = effective-available seen_registry 100

expected_degraded : expected_outcome observed fallbacks 100 (required search_operation) ≡ degraded
unfolding program
expected_degraded = refl

decide_outcome_example :
    (decision : DegradedDecision) × (decide 100 search_operation
        (seen_registry ∷ seen_index ∷ [])
        (old_index ∷ [])
      ≡ ok decision)
    × (decision.outcome ≡ expected_outcome observed fallbacks 100 (required search_operation))
unfolding program
decide_outcome_example =
    decide_outcome 100 search_operation (seen_registry ∷ seen_index ∷ []) (old_index ∷ []) observed
      fallbacks refl refl
