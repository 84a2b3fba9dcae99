-- ===== src/Reasoning/Tests.antt =====
-- src/capabilityhub/reasoning.py: routes of one task, and the theorems at them.
use capabilityhub.Base.{
  String, ◌≡◌, refl, ◌⊎◌, true, false, Option, none, some, [], ◌∷◌, ◌++◌, text_dec, arith, ite,
}
use capabilityhub.Dict.{pair_dec}
use capabilityhub.Result.{ok, raise}
use capabilityhub.Models.{read, irreversible, reversible_write}
use capabilityhub.Models.Loads.{ReasoningTier, low, medium, high, ReasoningDecision}
use capabilityhub.Reasoning.{
  insert_tier, sorted_unique, normalize_eligible, candidates_from, has_tier, next_higher,
  replace_runs, strip_left, strip_right, reason_code, floor_reasons, ReasoningRouter, create_router,
  start_tier, RouteRequest, count_attempt, is_stuck, choose, route_task, route, snapshot, reset,
  no_eligible_reasoning_tier, task_of, risk_floor,
}
use capabilityhub.Reasoning.Floors.{IsAdmissible, route_outcome}
use capabilityhub.Reasoning.Caps.{IsCapped, here, next, routes, Calls-IsCapped}
use capabilityhub.Reasoning.Attempts.{start, equivalent, equivalent_stops}

program : Unit {0}
unfolding text_dec pair_dec insert_tier sorted_unique normalize_eligible candidates_from has_tier
    next_higher replace_runs strip_left strip_right reason_code floor_reasons create_router
    start_tier count_attempt is_stuck choose route_task route snapshot
program = tt

abbrev print : Option String → String
print none = "null"
print (some s) = s

abbrev lower : String → String
lower s = s

abbrev router : ReasoningRouter
router = record {
  policy_revision = "1";
  max_escalations = 1;
  max_equivalent_attempts = 1;
  tasks = [];
}

created : create_router "1" 1 1 ≡ ok router
unfolding program
created = refl

abbrev asks : RouteRequest String
asks = record {
  eligible_tiers = some (high ∷ medium ∷ high ∷ []);
  risk = read;
  policy_minimum = low;
  escalation_reason = some "too hard!";
  attempt_signature = some "x";
  evidence_signature = none;
}

abbrev once : ReasoningRouter
once = (route String print lower "t" asks router).1

abbrev first_decision : ReasoningDecision
first_decision = record {
  tier = high;
  reason_codes = "escalated:too_hard" ∷ [];
  escalations_used = 1;
  policy_revision = "1";
}

abbrev second_decision : ReasoningDecision
second_decision = record {
  tier = high;
  reason_codes = "equivalent_attempt" ∷ "no_progress" ∷ "stop" ∷ [];
  escalations_used = 1;
  policy_revision = "1";
}

first_route : (route String print lower "t" asks router).0 ≡ ok first_decision
unfolding program
first_route = refl

second_route : (route String print lower "t" asks once).0 ≡ ok second_decision
unfolding program
second_route = refl

-- The floor of an irreversible operation leaves no tier but the highest.
no_tier :
    (route String print lower "t"
      (record asks { eligible_tiers = some (low ∷ medium ∷ []); risk = irreversible })
      router).0
    ≡ raise no_eligible_reasoning_tier
unfolding program
no_tier = refl

floor_named :
    floor_reasons (risk_floor reversible_write) high
    ≡ "risk_floor:medium" ∷ "policy_floor:high" ∷ []
unfolding program
floor_named = refl

seen : snapshot "t" once ≡ record {
  task_id = "t";
  current_tier = some high;
  escalations_used = 1;
  distinct_attempts = 1;
}
unfolding program
seen = refl

forgotten :
    snapshot "t" (reset "t" once).1
    ≡ record { task_id = "t"; current_tier = none; escalations_used = 0; distinct_attempts = 0 }
unfolding program
forgotten = refl

task_named : ite (text_dec "t" "") true false ≡ false
unfolding program
task_named = refl

route_outcome_example :
    ((d : ReasoningDecision) × ((route String print lower "t" asks router).0 ≡ ok d)
      × IsAdmissible asks d.tier)
    ⊎ ((route String print lower "t" asks router ≡ (raise no_eligible_reasoning_tier, router))
        × ((t : ReasoningTier) → ¬ IsAdmissible asks t))
route_outcome_example = route_outcome print lower "t" asks router task_named

Calls-IsCapped_example : IsCapped 1 once
Calls-IsCapped_example =
    Calls-IsCapped print lower "1" 1 1 router created once (next here (routes "t" asks))

equivalent_stops_example :
    (second_decision.reason_codes
      ≡ floor_reasons (risk_floor read) low ++ "equivalent_attempt" ∷ "no_progress" ∷ "stop" ∷ [])
    × (second_decision.escalations_used ≡ (task_of "t" once).escalations_used)
equivalent_stops_example =
    equivalent_stops print lower "t" ("x", "null") router 1 once
      (equivalent start asks first_decision ("x", refl, refl) first_route) (omega arith) asks
      second_decision ("x", refl, refl) second_route
