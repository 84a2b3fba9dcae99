-- ===== src/Degraded.antt =====
-- src/capabilityhub/degraded.py: `DegradedModePolicy`. Times are counts of a unit, and the reasons
-- are data in place of the texts that the code puts together.
pub mod Decisions
pub mod Freshness
mod Tests
use capabilityhub.Base.{
  ℕ, ◌+◌, ◌-◌, String, Bool, true, false, ◌&&◌, ◌||◌, not, Option, none, some, List, [], ◌∷◌, ◌++◌,
  ltb, leb, ◌==◌, if◌then◌else◌, ite, text_dec, length, codes, is_space,
}
use capabilityhub.Dict.{Dict, Key, get, put, contains}
use capabilityhub.Errors.{value_error}
use capabilityhub.Result.{Result, ok, raise, raise_if, ◌>>=◌, ◌>>◌}

pub data Dependency : Type 0 where
  registry index policy provider : Dependency

pub data DependencyStatus : Type 0 where
  available unavailable stale unknown : DependencyStatus

pub data Operation : Type 0 where
  search_operation load execute lifecycle : Operation

pub data DecisionOutcome : Type 0 where
  allow degraded deny : DecisionOutcome

unfoldable pub dependency_dec : Discrete Dependency
dependency_dec = hlevel

instance abbrev pub dependency_key : Key Dependency
dependency_key = record { dec = dependency_dec }

unfoldable pub status_dec : Discrete DependencyStatus
status_dec = hlevel

unfoldable pub operation_dec : Discrete Operation
operation_dec = hlevel

-- `_REQUIRED`
abbrev pub required : Operation → List Dependency
required search_operation = registry ∷ index ∷ []
required _ = registry ∷ policy ∷ provider ∷ []

pub record DependencyObservation : Type 0 where
  pub dependency : Dependency
  pub status : DependencyStatus
  pub observed_at : ℕ
  pub ttl_seconds : ℕ

pub record DependencyAssessment : Type 0 where
  pub dependency : Dependency
  pub declared_status : DependencyStatus
  pub effective_status : DependencyStatus
  pub observed_at : Option ℕ
  pub ttl_seconds : Option ℕ
  pub age_seconds : Option ℕ

pub record SafeFallback : Type 0 where
  pub operation : Operation
  pub dependency : Dependency
  pub name : String
  pub statuses : List DependencyStatus
  pub max_age_seconds : Option ℕ

pub data DecisionReason : Type 0 where
  not_available : Dependency → DependencyStatus → DecisionReason
  fallback_used : Dependency → String → DecisionReason
  fallback_missing : Dependency → DecisionReason
  dependencies_fresh : DecisionReason

pub record DegradedDecision : Type 0 where
  pub operation : Operation
  pub outcome : DecisionOutcome
  pub reasons : List DecisionReason
  pub dependencies : List DependencyAssessment
  pub fallbacks_used : List String

-- `status in statuses`
abbrev pub has_status : DependencyStatus → List DependencyStatus → Bool
has_status s [] = false
has_status s (t ∷ ts) = ite (status_dec t s) true (has_status s ts)

abbrev pub distinct : List DependencyStatus → Bool
distinct [] = true
distinct (s ∷ ss) = not (has_status s ss) && distinct ss

abbrev pub any_space : List ℕ → Bool
any_space [] = false
any_space (c ∷ cs) = is_space c || any_space cs

-- `SafeFallback.__post_init__`
unfoldable pub create_fallback : SafeFallback → Result SafeFallback
create_fallback f = do
  raise_if
      (ite (text_dec f.name "") true false
        || ltb 64 (length (codes f.name))
        || any_space (codes f.name))
      value_error
  raise_if (length f.statuses == 0 || not (distinct f.statuses)) value_error
  raise_if (has_status available f.statuses) value_error
  ok f

abbrev pub Observations : Type 0
Observations = Dict Dependency DependencyObservation

abbrev pub Fallbacks : Type 0
Fallbacks = Dict Dependency SafeFallback

-- The loop of `_observation_map`.
unfoldable pub observe_from : Observations → List DependencyObservation → Result Observations
observe_from result [] = ok result
observe_from result (o ∷ os) =
    let rest = observe_from (put o.dependency o result) os in
    if contains o.dependency result then raise value_error else rest

-- `_observation_map`
abbrev pub observation_map : List DependencyObservation → Result Observations
observation_map = observe_from []

-- The loop of `_fallback_map`.
unfoldable pub fallbacks_from : Operation → Fallbacks → List SafeFallback → Result Fallbacks
fallbacks_from op result [] = ok result
fallbacks_from op result (f ∷ fs) =
    let skipped = fallbacks_from op result fs in
    let added = fallbacks_from op (put f.dependency f result) fs in
    if not (ite (operation_dec f.operation op) true false)
    then skipped
    else if contains f.dependency result
    then raise value_error
    else added

-- `_fallback_map`
abbrev pub fallback_map : Operation → List SafeFallback → Result Fallbacks
fallback_map op = fallbacks_from op []

abbrev pub is_available : DependencyStatus → Bool
is_available available = true
is_available _ = false

-- The status of `_assess` for an observation. An age below 0 is that of an observation that was
-- made after `now`.
unfoldable pub effective : DependencyObservation → ℕ → DependencyStatus
effective o now =
    if ltb now o.observed_at
    then unknown
    else if is_available o.status && ltb o.ttl_seconds (now - o.observed_at)
    then stale
    else o.status

-- `_assess`. Truncated subtraction is `max(age, 0.0)`.
unfoldable pub assess : Dependency → Option DependencyObservation → ℕ → DependencyAssessment
assess dependency none now = record {
  dependency = dependency;
  declared_status = unknown;
  effective_status = unknown;
  observed_at = none;
  ttl_seconds = none;
  age_seconds = none;
}
assess dependency (some o) now = record {
  dependency = dependency;
  declared_status = o.status;
  effective_status = effective o now;
  observed_at = some o.observed_at;
  ttl_seconds = some o.ttl_seconds;
  age_seconds = some (now - o.observed_at);
}

-- `assessment.age_seconds is not None and assessment.age_seconds <= fallback.max_age_seconds`
abbrev pub within_age : Option ℕ → Option ℕ → Bool
within_age none age = true
within_age (some limit) none = false
within_age (some limit) (some age) = leb age limit

-- `_fallback_applies`
unfoldable pub fallback_applies : SafeFallback → DependencyAssessment → Bool
fallback_applies f a =
    has_status a.effective_status f.statuses && within_age f.max_age_seconds a.age_seconds

pub record Tally : Type 0 where
  pub reasons : List DecisionReason
  pub used : List String
  pub denied : Bool
  pub degraded_mode : Bool

-- The `else` branch of the loop body.
abbrev pub deny_one : Dependency → DependencyStatus → Tally → Tally
deny_one dependency status t = record t {
  denied = true;
  reasons = t.reasons ++ not_available dependency status ∷ fallback_missing dependency ∷ [];
}

abbrev pub use_one : Dependency → DependencyStatus → SafeFallback → Tally → Tally
use_one dependency status f t = record t {
  degraded_mode = true;
  used = t.used ++ f.name ∷ [];
  reasons = t.reasons ++ not_available dependency status ∷ fallback_used dependency f.name ∷ [];
}

-- The loop body of `decide`.
unfoldable pub tally_one : Fallbacks → DependencyAssessment → Tally → Tally
tally_one fallbacks a t =
    if is_available a.effective_status then t else elim (get a.dependency fallbacks) [
      | none ↦ deny_one a.dependency a.effective_status t
      | some f ↦
          if fallback_applies f a
          then use_one a.dependency a.effective_status f t
          else deny_one a.dependency a.effective_status t
    ]

-- The loop of `decide` over the required dependencies.
unfoldable pub tally_loop : Observations → Fallbacks → ℕ → List Dependency → Tally → Tally
tally_loop observed fallbacks now [] t = t
tally_loop observed fallbacks now (d ∷ ds) t =
    tally_loop observed fallbacks now ds (tally_one fallbacks (assess d (get d observed) now) t)

abbrev pub outcome_of : Tally → DecisionOutcome
outcome_of t = if t.denied then deny else if t.degraded_mode then degraded else allow

abbrev pub or_fresh_reason : List DecisionReason → List DecisionReason
or_fresh_reason [] = dependencies_fresh ∷ []
or_fresh_reason (r ∷ rs) = r ∷ rs

abbrev pub empty_tally : Tally
empty_tally = record { reasons = []; used = []; denied = false; degraded_mode = false }

-- `decide` at the time `now`.
unfoldable pub decide :
    ℕ → Operation → List DependencyObservation → List SafeFallback → Result DegradedDecision
decide now op observations safe_fallbacks = do
  observed ← observation_map observations
  fallbacks ← fallback_map op safe_fallbacks
  let t = tally_loop observed fallbacks now (required op) empty_tally
  ok (record {
    operation = op;
    outcome = outcome_of t;
    reasons = or_fresh_reason t.reasons;
    dependencies =
        assess registry (get registry observed) now
        ∷ assess index (get index observed) now
        ∷ assess policy (get policy observed) now
        ∷ assess provider (get provider observed) now
        ∷ [];
    fallbacks_used = t.used;
  })
