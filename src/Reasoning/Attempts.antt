-- ===== src/Reasoning/Attempts.antt =====
-- src/capabilityhub/reasoning.py: how often an equivalent attempt is made before the router says stop.
use capabilityhub.Base.{
  ℕ, suc, ◌+◌, ◌≤◌, String, ◌≡◌, ◌≢◌, refl, sym, ap, ◌∙◌, subst, inl, inr, true, false, Option,
  none, some, List, [], ◌∷◌, ◌++◌, arith, Bool-cases, List-cases, ite, text_dec,
}
use capabilityhub.Dict.{text_key, pair_key, put, get-put, get-put_self, get-put_ne}
use capabilityhub.Errors.{Exc, value_error}
use capabilityhub.Result.{ok, raise}
use capabilityhub.Models.Loads.{ReasoningTier, ReasoningDecision}
use capabilityhub.Reasoning.{
  max_tier, risk_floor, normalize_eligible, candidates_from, ReasoningRouter, floor_reasons,
  RouteRequest, start_tier, task_of, TaskState, choose, route_task, route, is_stuck,
  no_eligible_reasoning_tier, count_attempt, count_of, attempt_pair,
}
use capabilityhub.Reasoning.Caps.{route_after}

module _ {Json : Type 0} (fingerprint : Option Json → String) (strip_lower : String → String) where
  -- The attempt of a request is the pair.
  abbrev pub Attempts : RouteRequest Json → String × String → Type 0
  Attempts q pair =
      (attempt : Json) × (q.attempt_signature ≡ some attempt)
      × (attempt_pair Json fingerprint attempt q.evidence_signature ≡ pair)

  count_attempt_le :
      (pair : String × String) (attempt evidence : Option Json) (s : TaskState)
      → count_of pair s ≤ count_of pair (count_attempt Json fingerprint attempt evidence s)
  unfolding count_attempt
  count_attempt_le pair none evidence s = omega arith
  count_attempt_le pair (some attempt) evidence s = ground (
    arith,
    get-put (attempt_pair Json fingerprint attempt evidence) pair
        (count_of (attempt_pair Json fingerprint attempt evidence) s + 1) s.attempt_counts,
  )

  count_attempt-some :
      (attempt : Json) (evidence : Option Json) (s : TaskState)
      → let pair = attempt_pair Json fingerprint attempt evidence in
        count_of pair (count_attempt Json fingerprint (some attempt) evidence s)
        ≡ count_of pair s + 1
  unfolding count_attempt
  count_attempt-some attempt evidence s =
      let pair = attempt_pair Json fingerprint attempt evidence in
      ground (arith, get-put pair pair (count_of pair s + 1) s.attempt_counts)

  count_attempt_grows :
      (pair : String × String) (q : RouteRequest Json) (s : TaskState)
      → Attempts q pair
      → count_of pair (count_attempt Json fingerprint q.attempt_signature q.evidence_signature s)
        ≡ count_of pair s + 1
  count_attempt_grows pair q s (attempt, here, same) =
      subst
        (λ p.
          count_of p (count_attempt Json fingerprint q.attempt_signature q.evidence_signature s)
          ≡ count_of p s + 1)
        same (rw here (count_attempt-some attempt q.evidence_signature s))

  task_of-put_self :
      (k : String) (s : TaskState) (r : ReasoningRouter)
      → task_of k (record r { tasks = put k s r.tasks }) ≡ s
  task_of-put_self k s r = rw (get-put_self k s r.tasks, task_of) refl

  task_of-put_ne :
      (k q : String) (s : TaskState) (r : ReasoningRouter)
      → q ≢ k
      → task_of q (record r { tasks = put k s r.tasks }) ≡ task_of q r
  task_of-put_ne k q s r h = rw (get-put_ne k q s r.tasks h, task_of) refl

  -- A choice counts the attempt of its own task, and no other.
  route_task_counted :
      (pair : String × String) (task_id : String) (q : RouteRequest Json) (t : ReasoningTier)
      (xs : List ReasoningTier) (r : ReasoningRouter)
      → Attempts q pair
      → count_of pair (task_of task_id (route_task Json fingerprint strip_lower task_id q t xs r).1)
        ≡ count_of pair (task_of task_id r) + 1
  unfolding route_task
  route_task_counted pair task_id q t xs r h =
      ap (count_of pair) (task_of-put_self task_id _ r)
      ∙ count_attempt_grows pair q (task_of task_id r) h

  route_task_keeps :
      (pair : String × String) (k task_id : String) (q : RouteRequest Json) (t : ReasoningTier)
      (xs : List ReasoningTier) (r : ReasoningRouter)
      → count_of pair (task_of k r)
        ≤ count_of pair (task_of k (route_task Json fingerprint strip_lower task_id q t xs r).1)
  unfolding route_task
  route_task_keeps pair k task_id q t xs r = elim (text_dec k task_id) [
    | yes same ↦
        subst
          (λ x.
            count_of pair (task_of x r)
            ≤ count_of pair
                (task_of x (route_task Json fingerprint strip_lower task_id q t xs r).1))
          (sym same)
          (subst (λ x. count_of pair (task_of task_id r) ≤ count_of pair x)
            (sym (task_of-put_self task_id _ r))
            (count_attempt_le pair q.attempt_signature q.evidence_signature (task_of task_id r)))
    | no other ↦
        subst (λ x. count_of pair (task_of k r) ≤ count_of pair x)
          (sym (task_of-put_ne task_id k _ r other)) (omega arith)
  ]

  -- A route that returns has made its choice.
  route_ok :
      (task_id : String) (q : RouteRequest Json) (r : ReasoningRouter) (d : ReasoningDecision)
      → (route Json fingerprint strip_lower task_id q r).0 ≡ ok d
      → (t : ReasoningTier) × (xs : List ReasoningTier) × (route Json fingerprint strip_lower
            task_id q r
          ≡ route_task Json fingerprint strip_lower task_id q t xs r)
  unfolding route
  route_ok task_id q r d h = elim (Bool-cases (ite (text_dec task_id "") true false)) [
    | inl empty ↦ raised value_error (rw empty refl)
    | inr named ↦
        elim (List-cases (
          candidates_from (max_tier (risk_floor q.risk) q.policy_minimum)
            (normalize_eligible q.eligible_tiers))) [
              | inl none_left ↦ raised no_eligible_reasoning_tier (rw (named, none_left) refl)
              | inr (t, xs, e) ↦ (t, t ∷ xs, rw (named, e) refl)
            ]
  ]
    where
      raised :
          {X : Type 0} (x : Exc) → route Json fingerprint strip_lower task_id q r ≡ (raise x, r) → X
      raised x e = let refused : raise x ≡ ok d = sym (ap (λ p. p.0) e) ∙ h in absurd (cc refused)

  -- Routes of a router, with how many of them returned for an attempt of the task that is equivalent to
  -- the pair.
  pub data Routes (task_id : String) (pair : String × String) (a : ReasoningRouter)
      : ℕ → ReasoningRouter → Type 0 where
    start : Routes task_id pair a 0 a
    equivalent :
        {n : ℕ} {b : ReasoningRouter}
        → Routes task_id pair a n b
        → (q : RouteRequest Json) (d : ReasoningDecision) → Attempts q pair
        → (route Json fingerprint strip_lower task_id q b).0 ≡ ok d
        → Routes task_id pair a (suc n) (route Json fingerprint strip_lower task_id q b).1
    other :
        {n : ℕ} {b : ReasoningRouter}
        → Routes task_id pair a n b
        → (other_task : String) (q : RouteRequest Json)
        → Routes task_id pair a n (route Json fingerprint strip_lower other_task q b).1

  Routes-count :
      (task_id : String) (pair : String × String) (a : ReasoningRouter) {n : ℕ}
      {r : ReasoningRouter}
      → Routes task_id pair a n r
      → (n ≤ count_of pair (task_of task_id r))
        × (r.max_equivalent_attempts ≡ a.max_equivalent_attempts)
  unfolding route_task
  Routes-count task_id pair a start = (omega arith, refl)
  Routes-count task_id pair a (equivalent {n} {b} run q d same done) =
      let (before, kept) = Routes-count task_id pair a run in
      let (t, xs, made) = route_ok task_id q b d done in
      let counted = route_task_counted pair task_id q t xs b same in
      (
        subst (λ p. suc n ≤ count_of pair (task_of task_id p.1)) (sym made) (omega arith),
        ap (λ p. p.1.max_equivalent_attempts) made ∙ kept,
      )
  Routes-count task_id pair a (other {n} {b} run other_task q) =
      let (before, kept) = Routes-count task_id pair a run in
      route_after fingerprint strip_lower
        (λ r.
          (n ≤ count_of pair (task_of task_id r))
          × (r.max_equivalent_attempts ≡ a.max_equivalent_attempts))
        other_task q b (before, kept)
        (λ t xs.
          let still = route_task_keeps pair task_id other_task q t xs b in (omega arith, kept))

  is_stuck_on :
      (pair : String × String) (q : RouteRequest Json) (m : ℕ) (s : TaskState)
      → Attempts q pair
      → m ≤ count_of pair s
      → is_stuck Json fingerprint m q.attempt_signature q.evidence_signature s ≡ true
  unfolding is_stuck
  is_stuck_on pair q m s (attempt, here, same) h = rw (here, same) (ground arith)

  route_task_stuck :
      (task_id : String) (q : RouteRequest Json) (t : ReasoningTier) (xs : List ReasoningTier)
      (r : ReasoningRouter) (d : ReasoningDecision)
      → is_stuck Json fingerprint r.max_equivalent_attempts q.attempt_signature q.evidence_signature
          (task_of task_id r)
        ≡ true
      → (route_task Json fingerprint strip_lower task_id q t xs r).0 ≡ ok d
      → (d.reason_codes
          ≡ floor_reasons (risk_floor q.risk) q.policy_minimum
            ++ "equivalent_attempt" ∷ "no_progress" ∷ "stop" ∷ [])
        × (d.escalations_used ≡ (task_of task_id r).escalations_used)
  unfolding route_task choose
  route_task_stuck task_id q t xs r d stuck h =
      let state = task_of task_id r in
      let stopped : ReasoningDecision = record {
        tier = start_tier state.current_tier t xs;
        reason_codes =
            floor_reasons (risk_floor q.risk) q.policy_minimum
            ++ "equivalent_attempt" ∷ "no_progress" ∷ "stop" ∷ [];
        escalations_used = state.escalations_used;
        policy_revision = r.policy_revision;
      } in
      let made : (route_task Json fingerprint strip_lower task_id q t xs r).0 ≡ ok stopped =
        rw stuck refl in
      let same : stopped ≡ d = cc in
      (sym (ap (λ x. x.reason_codes) same), sym (ap (λ x. x.escalations_used) same))

  -- Once equivalent attempts of a task have been returned as often as the router allows, with any other
  -- routes among them, each further one that returns says that there is no progress and to stop, and
  -- uses no escalation.
  pub equivalent_stops :
      (task_id : String) (pair : String × String) (a : ReasoningRouter) (n : ℕ)
      (r : ReasoningRouter)
      → Routes task_id pair a n r
      → a.max_equivalent_attempts ≤ n
      → (q : RouteRequest Json) (d : ReasoningDecision) → Attempts q pair
      → (route Json fingerprint strip_lower task_id q r).0 ≡ ok d
      → (d.reason_codes
          ≡ floor_reasons (risk_floor q.risk) q.policy_minimum
            ++ "equivalent_attempt" ∷ "no_progress" ∷ "stop" ∷ [])
        × (d.escalations_used ≡ (task_of task_id r).escalations_used)
  equivalent_stops task_id pair a n r run enough q d same done =
      let (counted, kept) = Routes-count task_id pair a run in
      let (t, xs, made) = route_ok task_id q r d done in
      route_task_stuck task_id q t xs r d
        (is_stuck_on pair q r.max_equivalent_attempts (task_of task_id r) same (omega arith))
        (sym (ap (λ p. p.0) made) ∙ done)
