-- ===== src/Reasoning/Caps.antt =====
-- src/capabilityhub/reasoning.py: the bounds on escalations and on equivalent attempts, over any calls.
use capabilityhub.Base.{
  ℕ, ◌≤◌, String, ◌≡◌, refl, sym, subst, inl, inr, Bool, true, false, Option, none, some, List, [],
  ◌∷◌, arith, Bool-cases, Option-cases, List-cases, leb, ite, text_dec,
}
use capabilityhub.Dict.{
  text_key, pair_key, get, put, remove, IsDict, get-put, get-remove, put-IsDict, remove-IsDict,
}
use capabilityhub.Result.{ok}
use capabilityhub.Models.Loads.{ReasoningTier}
use capabilityhub.Reasoning.{
  max_tier, risk_floor, normalize_eligible, candidates_from, next_higher, ReasoningRouter,
  create_router, RouteRequest, start_tier, task_of, TaskState, choose, route_task, route, reset,
  is_stuck,
}

-- An escalation is counted only below the maximum.
choose_used :
    (strip_lower : String → String) (m : ℕ) (stuck : Bool) (reason : Option String)
    (current cheapest : ReasoningTier) (xs : List ReasoningTier) (used : ℕ)
    → used ≤ m
    → (choose strip_lower m stuck reason current cheapest xs used).2 ≤ m
unfolding choose
choose_used strip_lower m true reason current cheapest xs used h = h
choose_used strip_lower m false none current cheapest xs used h = h
choose_used strip_lower m false (some why) current cheapest xs used h =
    elim (Bool-cases (leb m used)) [
      | inl capped ↦ rw capped h
      | inr free ↦ elim (Option-cases (next_higher current xs)) [
        | inl top ↦ rw (free, top) h
        | inr (t, found) ↦ rw (free, found) (ground arith)
      ]
    ]

-- Every task is within the maximum of escalations.
pub record IsCapped (m : ℕ) (r : ReasoningRouter) : Type 0 where
  pub is_dict : IsDict r.tasks
  pub maximum : r.max_escalations ≡ m
  pub capped : (k : String) (s : TaskState) → get k r.tasks ≡ some s → s.escalations_used ≤ m

pub created-IsCapped :
    (policy : String) (m n : ℕ) (r : ReasoningRouter)
    → create_router policy m n ≡ ok r
    → IsCapped m r
unfolding create_router
created-IsCapped policy m n r h =
    let new : ReasoningRouter = record {
      policy_revision = policy;
      max_escalations = m;
      max_equivalent_attempts = n;
      tasks = [];
    } in
    let same : new ≡ r = ground arith in
    subst (IsCapped m) same
      (record { is_dict = tt; maximum = refl; capped = λ k s there. absurd (cc) })

task_of_used :
    (m : ℕ) (r : ReasoningRouter) → IsCapped m r → (k : String) → (task_of k r).escalations_used ≤ m
task_of_used m r h k = elim (Option-cases (get k r.tasks)) [
  | inl new ↦ rw (new, task_of) (omega arith)
  | inr (s, there) ↦ rw (there, task_of) (h.capped k s there)
]

put-IsCapped :
    (m : ℕ) (r : ReasoningRouter) (k : String) (s : TaskState)
    → IsCapped m r
    → s.escalations_used ≤ m
    → IsCapped m (record r { tasks = put k s r.tasks })
put-IsCapped m r k s h le = record {
  is_dict = put-IsDict k s r.tasks h.is_dict;
  maximum = h.maximum;
  capped = λ q t there. ground (arith, get-put k q s r.tasks, h.capped q t);
}

remove-IsCapped :
    (m : ℕ) (r : ReasoningRouter) (k : String)
    → IsCapped m r
    → IsCapped m (record r { tasks = remove k r.tasks })
remove-IsCapped m r k h = record {
  is_dict = remove-IsDict k r.tasks h.is_dict;
  maximum = h.maximum;
  capped = λ q t there. ground (arith, get-remove k q r.tasks h.is_dict, h.capped q t);
}

module _ {Json : Type 0} (fingerprint : Option Json → String) (strip_lower : String → String) where
  -- What holds before a route and after every choice holds after it.
  pub route_after :
      (P : ReasoningRouter → Type 0) (task_id : String) (q : RouteRequest Json)
      (r : ReasoningRouter)
      → P r
      → ((t : ReasoningTier) (xs : List ReasoningTier)
          → P (route_task Json fingerprint strip_lower task_id q t xs r).1)
      → P (route Json fingerprint strip_lower task_id q r).1
  unfolding route
  route_after P task_id q r h k = elim (Bool-cases (ite (text_dec task_id "") true false)) [
    | inl empty ↦ rw empty h
    | inr named ↦
        elim (List-cases (
          candidates_from (max_tier (risk_floor q.risk) q.policy_minimum)
            (normalize_eligible q.eligible_tiers))) [
              | inl none_left ↦ rw (named, none_left) h
              | inr (t, xs, e) ↦ rw (named, e) (k t (t ∷ xs))
            ]
  ]

  route-IsCapped :
      (m : ℕ) (task_id : String) (q : RouteRequest Json) (r : ReasoningRouter)
      → IsCapped m r
      → IsCapped m (route Json fingerprint strip_lower task_id q r).1
  unfolding route_task
  route-IsCapped m task_id q r h = route_after (IsCapped m) task_id q r h (λ t xs.
      let state = task_of task_id r in
      put-IsCapped m r task_id _ h (
        subst
          (λ n.
            (choose strip_lower n
              (is_stuck Json fingerprint r.max_equivalent_attempts q.attempt_signature
                q.evidence_signature state)
              q.escalation_reason (start_tier state.current_tier t xs) t xs
              state.escalations_used).2
            ≤ m)
          (sym h.maximum)
          (choose_used strip_lower m _ q.escalation_reason _ t xs state.escalations_used
            (task_of_used m r h task_id))))

  -- The router after a call, which may have raised.
  pub data Call (r : ReasoningRouter) : ReasoningRouter → Type 0 where
    routes :
        (task_id : String) (q : RouteRequest Json)
        → Call r (route Json fingerprint strip_lower task_id q r).1
    resets : (task_id : String) → Call r (reset task_id r).1

  pub data Calls (a : ReasoningRouter) : ReasoningRouter → Type 0 where
    here : Calls a a
    next : {b c : ReasoningRouter} → Calls a b → Call b c → Calls a c

  Call-IsCapped : (m : ℕ) {r r' : ReasoningRouter} → Call r r' → IsCapped m r → IsCapped m r'
  Call-IsCapped m {r} (routes task_id q) h = route-IsCapped m task_id q r h
  Call-IsCapped m {r} (resets task_id) h = remove-IsCapped m r task_id h

  -- After any calls of route and reset on a router that the constructor made, refused ones included,
  -- no task has used more escalations than the maximum.
  pub Calls-IsCapped :
      (policy : String) (m n : ℕ) (a : ReasoningRouter)
      → create_router policy m n ≡ ok a
      → (r : ReasoningRouter) → Calls a r
      → IsCapped m r
  Calls-IsCapped policy m n a made r here = created-IsCapped policy m n a made
  Calls-IsCapped policy m n a made r (next {b} run call) =
      Call-IsCapped m call (Calls-IsCapped policy m n a made b run)
