-- ===== src/Reasoning/Router.antt =====
-- src/capabilityhub/reasoning.py: the router and its methods. The lock makes each one step.
use capabilityhub.Base.{
  ℕ, ◌+◌, String, Bool, true, false, Option, none, some, List, [], ◌∷◌, ◌++◌, ltb, leb, ◌==◌,
  if◌then◌else◌, ite, text_dec, length, append,
}
use capabilityhub.Dict.{Dict, text_key, pair_key, get, put, remove}
use capabilityhub.Errors.{Exc, hub_error, budget, value_error}
use capabilityhub.Result.{Result, ok, raise}
use capabilityhub.Exec.{Exec, throw}
use capabilityhub.Models.{SideEffect}
use capabilityhub.Models.Loads.{ReasoningTier, ReasoningDecision}
use capabilityhub.Reasoning.Tiers.{
  tier_order, risk_floor, max_tier, normalize_eligible, candidates_from, has_tier, next_higher,
}
use capabilityhub.Reasoning.Reasons.{reason_code, floor_reasons}

pub record TaskRoutingSnapshot : Type 0 where
  pub task_id : String
  pub current_tier : Option ReasoningTier
  pub escalations_used : ℕ
  pub distinct_attempts : ℕ

pub record TaskState : Type 0 where
  pub current_tier : Option ReasoningTier
  pub escalations_used : ℕ
  pub attempt_counts : Dict (String × String) ℕ

abbrev pub new_task : TaskState
new_task = record { current_tier = none; escalations_used = 0; attempt_counts = [] }

pub record ReasoningRouter : Type 0 where
  pub policy_revision : String
  pub max_escalations : ℕ
  pub max_equivalent_attempts : ℕ
  pub tasks : Dict String TaskState

-- `__init__`
unfoldable pub create_router : String → ℕ → ℕ → Result ReasoningRouter
create_router policy_revision max_escalations max_equivalent_attempts =
    if ite (text_dec policy_revision "") true false
    then raise value_error
    else if max_equivalent_attempts == 0
    then raise value_error
    else ok (record {
      policy_revision = policy_revision;
      max_escalations = max_escalations;
      max_equivalent_attempts = max_equivalent_attempts;
      tasks = [];
    })

abbrev pub no_eligible_reasoning_tier : Exc
no_eligible_reasoning_tier = hub_error "no_eligible_reasoning_tier" budget

-- `self._tasks.get(task_id, _TaskState())`
abbrev pub task_of : String → ReasoningRouter → TaskState
task_of task_id r = elim (get task_id r.tasks) [ none ↦ new_task | some s ↦ s ]

-- The tier to go on from.
unfoldable pub start_tier :
    Option ReasoningTier → ReasoningTier → List ReasoningTier → ReasoningTier
start_tier stored cheapest candidates =
    let current : ReasoningTier = elim stored [
      | none ↦ cheapest
      | some t ↦ if has_tier t candidates then t else cheapest
    ] in
    if ltb (tier_order current) (tier_order cheapest) then cheapest else current

abbrev pub count_of : String × String → TaskState → ℕ
count_of pair s = elim (get pair s.attempt_counts) [ none ↦ 0 | some n ↦ n ]

-- The arguments of `route` after the identifier.
pub record RouteRequest (Json : Type 0) : Type 0 where
  pub eligible_tiers : Option (List ReasoningTier)
  pub risk : SideEffect
  pub policy_minimum : ReasoningTier
  pub escalation_reason : Option String
  pub attempt_signature : Option Json
  pub evidence_signature : Option Json

-- A tier, the reasons for it and the escalations then used.
abbrev pub Choice : Type 0
Choice = ReasoningTier × List String × ℕ

-- The branches that choose the tier.
unfoldable pub choose :
    (String → String)
    → ℕ
    → Bool
    → Option String
    → ReasoningTier
    → ReasoningTier
    → List ReasoningTier
    → ℕ
    → Choice
choose strip_lower max_escalations true escalation current cheapest candidates used =
    (current, "equivalent_attempt" ∷ "no_progress" ∷ "stop" ∷ [], used)
choose strip_lower max_escalations false none current cheapest candidates used = (
  current,
  (if tier_order current == tier_order cheapest
        then "cheapest_eligible"
        else "retained_escalated_tier")
      ∷ [],
  used,
)
choose strip_lower max_escalations false (some escalation) current cheapest candidates used =
    if leb max_escalations used
    then (current, "escalation_cap_reached" ∷ "stop" ∷ [], used)
    else elim (next_higher current candidates) [
      | none ↦ (current, "highest_eligible_tier" ∷ "stop" ∷ [], used)
      | some higher ↦
          (higher, append "escalated:" (reason_code strip_lower escalation) ∷ [], used + 1)
    ]

module _ (Json : Type 0) (fingerprint : Option Json → String) where
  -- The pair that stands for an attempt.
  abbrev pub attempt_pair : Json → Option Json → String × String
  attempt_pair attempt evidence = (fingerprint (some attempt), fingerprint evidence)

  -- The attempt, counted.
  unfoldable pub count_attempt : Option Json → Option Json → TaskState → TaskState
  count_attempt none evidence s = s
  count_attempt (some attempt) evidence s =
      let pair = attempt_pair attempt evidence in
      record s { attempt_counts = put pair (count_of pair s + 1) s.attempt_counts }

  -- `no_progress`
  unfoldable pub is_stuck : ℕ → Option Json → Option Json → TaskState → Bool
  is_stuck maximum none evidence s = false
  is_stuck maximum (some attempt) evidence s =
      leb maximum (count_of (attempt_pair attempt evidence) s)

  module _ (strip_lower : String → String) where
    -- `route` from the cheapest candidate on.
    unfoldable pub route_task :
        String
        → RouteRequest Json
        → ReasoningTier
        → List ReasoningTier
        → Exec ReasoningRouter ReasoningDecision
    route_task task_id q cheapest candidates r =
        let state = task_of task_id r in
        let counted = count_attempt q.attempt_signature q.evidence_signature state in
        let stuck =
          is_stuck r.max_equivalent_attempts q.attempt_signature q.evidence_signature state in
        let current = start_tier state.current_tier cheapest candidates in
        let (tier, reasons, used) =
          choose strip_lower r.max_escalations stuck q.escalation_reason current cheapest candidates
            state.escalations_used in
        let next = record counted { current_tier = some tier; escalations_used = used } in
        (
          ok (record {
            tier = tier;
            reason_codes = floor_reasons (risk_floor q.risk) q.policy_minimum ++ reasons;
            escalations_used = used;
            policy_revision = r.policy_revision;
          }),
          record r { tasks = put task_id next r.tasks },
        )

    -- `route`
    unfoldable pub route : String → RouteRequest Json → Exec ReasoningRouter ReasoningDecision
    route task_id q =
        if ite (text_dec task_id "") true false
        then throw value_error
        else let minimum = max_tier (risk_floor q.risk) q.policy_minimum in
          elim (candidates_from minimum (normalize_eligible q.eligible_tiers)) [
            | [] ↦ throw no_eligible_reasoning_tier
            | cheapest ∷ others ↦ route_task task_id q cheapest (cheapest ∷ others)
          ]

-- `snapshot`
unfoldable pub snapshot : String → ReasoningRouter → TaskRoutingSnapshot
snapshot task_id r =
    let state = task_of task_id r in
    record {
      task_id = task_id;
      current_tier = state.current_tier;
      escalations_used = state.escalations_used;
      distinct_attempts = length state.attempt_counts;
    }

-- `reset`
abbrev pub reset : String → Exec ReasoningRouter (Unit {0})
reset task_id r = (ok tt, record r { tasks = remove task_id r.tasks })
