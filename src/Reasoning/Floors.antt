-- ===== src/Reasoning/Floors.antt =====
-- src/capabilityhub/reasoning.py: which tier a route returns.
use capabilityhub.Base.{
  ℕ, ◌≤◌, String, ◌≡◌, refl, ap, ◌∙◌, inl, inr, ◌⊎◌, Bool, true, false, Option, none, some, List,
  [], ◌∷◌, arith, Bool-cases, Option-cases, List-cases, leb, ite, text_dec,
}
use capabilityhub.Dict.{text_key, pair_key}
use capabilityhub.Result.{ok, raise}
use capabilityhub.Models.Loads.{ReasoningTier, ReasoningDecision}
use capabilityhub.Reasoning.{
  tier_order, risk_floor, max_tier, normalize_eligible, candidates_from, has_tier, next_higher,
  ReasoningRouter, RouteRequest, start_tier, task_of, choose, route_task, route,
  no_eligible_reasoning_tier, is_stuck,
}

candidates_from-has_tier :
    (minimum t : ReasoningTier) (xs : List ReasoningTier)
    → has_tier t (candidates_from minimum xs) ≡ true
    → (tier_order minimum ≤ tier_order t) × (has_tier t xs ≡ true)
unfolding has_tier candidates_from
candidates_from-has_tier minimum t [] h = absurd (ground arith)
candidates_from-has_tier minimum t (x ∷ xs) h =
    ground (arith, candidates_from-has_tier minimum t xs)

candidates_from_none :
    (minimum t : ReasoningTier) (xs : List ReasoningTier)
    → candidates_from minimum xs ≡ []
    → tier_order minimum ≤ tier_order t
    → has_tier t xs ≡ false
unfolding has_tier candidates_from
candidates_from_none minimum t [] e h = refl
candidates_from_none minimum t (x ∷ xs) e h = ground (arith, candidates_from_none minimum t xs)

start_tier-has_tier :
    (stored : Option ReasoningTier) (cheapest : ReasoningTier) (xs : List ReasoningTier)
    → has_tier cheapest xs ≡ true
    → has_tier (start_tier stored cheapest xs) xs ≡ true
unfolding start_tier
start_tier-has_tier none cheapest xs h = ground arith
start_tier-has_tier (some t) cheapest xs h = ground arith

next_higher-has_tier :
    (current t : ReasoningTier) (xs : List ReasoningTier)
    → next_higher current xs ≡ some t
    → has_tier t xs ≡ true
unfolding next_higher has_tier
next_higher-has_tier current t [] h = absurd (ground arith)
next_higher-has_tier current t (x ∷ xs) h = ground (arith, next_higher-has_tier current t xs)

module _ (strip_lower : String → String) where
  pub choose-has_tier :
      (m : ℕ) (stuck : Bool) (reason : Option String) (current cheapest : ReasoningTier)
      (xs : List ReasoningTier) (used : ℕ)
      → has_tier current xs ≡ true
      → has_tier (choose strip_lower m stuck reason current cheapest xs used).0 xs ≡ true
  unfolding choose
  choose-has_tier m true reason current cheapest xs used h = h
  choose-has_tier m false none current cheapest xs used h = h
  choose-has_tier m false (some why) current cheapest xs used h = elim (Bool-cases (leb m used)) [
    | inl capped ↦ rw capped h
    | inr free ↦ elim (Option-cases (next_higher current xs)) [
      | inl top ↦ rw (free, top) h
      | inr (t, found) ↦ rw (free, found) (next_higher-has_tier current t xs found)
    ]
  ]

-- A tier that the caller supports, and that neither floor forbids.
pub record IsAdmissible {Json : Type 0} (q : RouteRequest Json) (t : ReasoningTier) : Type 0 where
  pub above_risk : tier_order (risk_floor q.risk) ≤ tier_order t
  pub above_policy : tier_order q.policy_minimum ≤ tier_order t
  pub supported : has_tier t (normalize_eligible q.eligible_tiers) ≡ true

minimum_of : {Json : Type 0} → RouteRequest Json → ReasoningTier
minimum_of q = max_tier (risk_floor q.risk) q.policy_minimum

max_tier_le :
    (a b t : ReasoningTier)
    → tier_order (max_tier a b) ≤ tier_order t
    → (tier_order a ≤ tier_order t) × (tier_order b ≤ tier_order t)
max_tier_le a b t h = ground arith

max_tier_least :
    (a b t : ReasoningTier)
    → tier_order a ≤ tier_order t
    → tier_order b ≤ tier_order t
    → tier_order (max_tier a b) ≤ tier_order t
max_tier_least a b t h k = ground arith

head-has_tier : (t : ReasoningTier) (xs : List ReasoningTier) → has_tier t (t ∷ xs) ≡ true
unfolding has_tier
head-has_tier t xs = ground arith

module _ {Json : Type 0} (fingerprint : Option Json → String) (strip_lower : String → String) where
  IsAdmissible-member :
      (q : RouteRequest Json) (t : ReasoningTier) (xs : List ReasoningTier)
      → candidates_from (minimum_of q) (normalize_eligible q.eligible_tiers) ≡ xs
      → has_tier t xs ≡ true
      → IsAdmissible q t
  unfolding minimum_of
  IsAdmissible-member q t xs e h =
      let found =
        candidates_from-has_tier (minimum_of q) t (normalize_eligible q.eligible_tiers)
          (ap (has_tier t) e ∙ h) in
      let above = max_tier_le (risk_floor q.risk) q.policy_minimum t found.0 in
      record { above_risk = above.0; above_policy = above.1; supported = found.1 }

  route_task_tier :
      (task_id : String) (q : RouteRequest Json) (cheapest : ReasoningTier)
      (xs : List ReasoningTier) (r : ReasoningRouter)
      → has_tier cheapest xs ≡ true
      → (d : ReasoningDecision) × ((route_task Json fingerprint strip_lower task_id q cheapest xs
            r).0
          ≡ ok d)
        × (has_tier d.tier xs ≡ true)
  unfolding route_task
  route_task_tier task_id q cheapest xs r h =
      let state = task_of task_id r in
      (
        _,
        refl,
        choose-has_tier strip_lower r.max_escalations
            (is_stuck Json fingerprint r.max_equivalent_attempts q.attempt_signature
              q.evidence_signature state)
            q.escalation_reason (start_tier state.current_tier cheapest xs) cheapest xs
            state.escalations_used (start_tier-has_tier state.current_tier cheapest xs h),
      )

  -- With a task identifier, route returns a tier that the caller supports and that is below neither
  -- the floor of the risk nor that of the policy; or no supported tier is, and it raises and changes
  -- nothing.
  pub route_outcome :
      (task_id : String) (q : RouteRequest Json) (r : ReasoningRouter)
      → ite (text_dec task_id "") true false ≡ false
      → ((d : ReasoningDecision) × ((route Json fingerprint strip_lower task_id q r).0 ≡ ok d)
          × IsAdmissible q d.tier)
        ⊎ ((route Json fingerprint strip_lower task_id q r ≡ (raise no_eligible_reasoning_tier, r))
            × ((t : ReasoningTier) → ¬ IsAdmissible q t))
  unfolding route minimum_of
  route_outcome task_id q r named =
      elim (List-cases (candidates_from (minimum_of q) (normalize_eligible q.eligible_tiers))) [
        | inl none_left ↦
            inr (rw (named, none_left) refl, λ t h. absurd (unsupported t none_left h))
        | inr (cheapest, others, e) ↦
            let found =
              route_task_tier task_id q cheapest (cheapest ∷ others) r
                (head-has_tier cheapest others) in
            inl (
              found.0,
              rw (named, e) (found.1),
              IsAdmissible-member q found.0.tier (cheapest ∷ others) e found.2,
            )
      ]
    where
      unsupported :
          (t : ReasoningTier)
          → candidates_from (minimum_of q) (normalize_eligible q.eligible_tiers) ≡ []
          → ¬ IsAdmissible q t
      unsupported t e h =
          let missing =
            candidates_from_none (minimum_of q) t (normalize_eligible q.eligible_tiers) e
              (max_tier_least (risk_floor q.risk) q.policy_minimum t h.above_risk h.above_policy) in
          absurd (cc (missing, h.supported))
