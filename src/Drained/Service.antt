-- ===== src/Drained/Service.antt =====
-- src/capabilityhub/drained_service.py: `DrainedCapabilityHubService`. The service that it wraps, the
-- resolver and the callbacks are parameters: actions on a state of their own, and, for the service, on
-- the whole state.
use capabilityhub.Base.{
  ℕ, ◌+◌, String, Bool, true, false, Option, none, some, List, [], ◌∷◌, if◌then◌else◌, ite,
  text_dec, length,
}
use capabilityhub.Errors.{Exc, hub_error, conflict, value_error}
use capabilityhub.Result.{Result, ok, raise}
use capabilityhub.Exec.{Exec, pure, throw, ◌>>=◌, ◌>>◌, finally}
use capabilityhub.Models.Manifests.{ExecutionRequest, ExecutionResult}
use capabilityhub.Draining.{
  Controller, Texts, DrainProgress, LifecycleSnapshot, admit, release, begin_drain, advance,
  controller_snapshot, AdmissionPin,
}
use capabilityhub.Drained.Bindings.{ExecutionBinding, wrapper_error, wrap_others, wrap_all}

-- The state: the controller, the identifiers in use, and that of the callbacks.
pub record Wrapper (W : Type 0) : Type 0 where
  pub drain : Controller
  pub active_pin_ids : List String
  pub world : W

abbrev pub lifecycle_not_accepting : Exc
lifecycle_not_accepting = hub_error "lifecycle_not_accepting" conflict

-- `pin_id in self._active_pin_ids`
abbrev pub is_active : String → List String → Bool
is_active k [] = false
is_active k (x ∷ xs) = ite (text_dec k x) true (is_active k xs)

-- `discard`
abbrev pub discard : String → List String → List String
discard k [] = []
discard k (x ∷ xs) = ite (text_dec k x) (discard k xs) (x ∷ discard k xs)

-- The error to raise later, where the release callback has failed.
abbrev pub release_outcome : Result Bool → Option Exc
release_outcome (ok true) = none
release_outcome (ok false) = some (wrapper_error "execution_revision_release_failed")
release_outcome (raise e) = some (wrapper_error "execution_revision_release_failed")

-- Of the two counts, the one that grows.
abbrev pub count_outcome : Bool → ℕ × ℕ → ℕ × ℕ
count_outcome true counts = (counts.0 + 1, counts.1)
count_outcome false counts = (counts.0, counts.1 + 1)

module _ {W : Type 0} where
  abbrev pub in_world : {A : Type 0} → Exec W A → Exec (Wrapper W) A
  in_world m s = let (r, w) = m s.world in (r, record s { world = w })

  abbrev pub in_drain : {A : Type 0} → Exec Controller A → Exec (Wrapper W) A
  in_drain m s = let (r, d) = m s.drain in (r, record s { drain = d })

  -- The identifier is taken, unless it is in use.
  unfoldable pub claim_pin : String → Exec (Wrapper W) (Unit {0})
  claim_pin pin_id s =
      if is_active pin_id s.active_pin_ids
      then (raise (wrapper_error "execution_pin_conflict"), s)
      else (ok tt, record s { active_pin_ids = pin_id ∷ s.active_pin_ids })

  unfoldable pub discard_pin : String → Exec (Wrapper W) (Unit {0})
  discard_pin pin_id s = (ok tt, record s { active_pin_ids = discard pin_id s.active_pin_ids })

  -- The call of the release callback.
  unfoldable pub release_error :
      Option (String → Exec W Bool) → String → Exec (Wrapper W) (Option Exc)
  release_error none pin_id s = (ok none, s)
  release_error (some f) pin_id s =
      let (r, t) = in_world (f pin_id) s in (ok (release_outcome r), t)

  abbrev pub raise_error : Option Exc → Exec (Wrapper W) (Unit {0})
  raise_error none = pure tt
  raise_error (some e) = throw e

  -- The outer `finally`; `callback` is the release callback where the revision was pinned.
  unfoldable pub clean_up : Option (String → Exec W Bool) → String → Exec (Wrapper W) (Unit {0})
  clean_up callback pin_id = do
    error ← release_error callback pin_id
    discard_pin pin_id
    raise_error error

module _ (Json W : Type 0) where
  -- What the service is built from.
  pub record Parts : Type 0 where
    pub resolve : ExecutionRequest Json → Exec W (ExecutionBinding Json)
    pub pin_id_factory : ExecutionRequest Json → ExecutionBinding Json → Exec W String
    pub pin_revision : Option (String → String → Exec W String)
    pub release_revision : Option (String → Exec W Bool)
    pub cancel : Option (String → Exec W Bool)
    pub service_execute : ExecutionRequest Json → Exec (Wrapper W) (ExecutionResult Json)

  -- `__init__`: both callbacks or neither.
  unfoldable pub create_service : Parts → Result Parts
  create_service parts = elim parts.pin_revision [
    | none ↦ elim parts.release_revision [ none ↦ ok parts | some _ ↦ raise value_error ]
    | some _ ↦ elim parts.release_revision [ none ↦ raise value_error | some _ ↦ ok parts ]
  ]

  module _ (lib : Texts) (parts : Parts) where
    -- `pin.pin_id` released in the inner `finally`.
    unfoldable pub release_after : AdmissionPin → Exec (Wrapper W) (Unit {0})
    release_after pin = do in_drain (release lib pin.pin_id); pure tt

    -- The admission, and the execution under the pin.
    unfoldable pub admit_and_run :
        ExecutionRequest Json
        → ExecutionBinding Json
        → String
        → Exec (Wrapper W) (ExecutionResult Json)
    admit_and_run request binding pin_id = do
      pin ← in_drain (admit lib binding.coordinate binding.revision pin_id binding.cancellable)
      finally (parts.service_execute request) (release_after pin)

    -- What follows the pinning of a revision.
    unfoldable pub run_pinned :
        ExecutionRequest Json
        → ExecutionBinding Json
        → String
        → String
        → Exec (Wrapper W) (ExecutionResult Json)
    run_pinned request binding pin_id pinned_revision =
        if ite (text_dec pinned_revision binding.revision) true false
        then admit_and_run request binding pin_id
        else throw lifecycle_not_accepting

    -- The pinning, with the outer `finally` of either case.
    unfoldable pub pin_and_run :
        ExecutionRequest Json
        → ExecutionBinding Json
        → String
        → (String → String → Exec W String)
        → Exec (Wrapper W) (ExecutionResult Json)
    pin_and_run request binding pin_id pin_revision s =
        let (r, t) =
          wrap_others "execution_revision_pin_failed"
            (in_world (pin_revision binding.coordinate pin_id)) s in
        elim r [
          | ok revision ↦
              finally (run_pinned request binding pin_id revision)
                (clean_up parts.release_revision pin_id) t
          | raise e ↦ finally (throw e) (clean_up none pin_id) t
        ]

    unfoldable pub run_claimed :
        ExecutionRequest Json
        → ExecutionBinding Json
        → String
        → Exec (Wrapper W) (ExecutionResult Json)
    run_claimed request binding pin_id = elim parts.pin_revision [
      | none ↦ finally (admit_and_run request binding pin_id) (clean_up none pin_id)
      | some f ↦ pin_and_run request binding pin_id f
    ]

    unfoldable pub check_operation :
        ExecutionRequest Json → ExecutionBinding Json → Exec (Wrapper W) (Unit {0})
    check_operation request binding =
        if ite (text_dec binding.operation.name request.operation) true false
        then pure tt
        else throw (wrapper_error "execution_binding_mismatch")

    unfoldable pub check_pin_id : String → Exec (Wrapper W) (Unit {0})
    check_pin_id pin_id =
        if ite (text_dec pin_id "") true false
        then throw (wrapper_error "execution_pin_creation_failed")
        else pure tt

    -- `execute`
    unfoldable pub execute : ExecutionRequest Json → Exec (Wrapper W) (ExecutionResult Json)
    execute request = do
      binding ← in_world (parts.resolve request)
      check_operation request binding
      pin_id ←
          wrap_all "execution_pin_creation_failed" (in_world (parts.pin_id_factory request binding))
      check_pin_id pin_id
      claim_pin pin_id
      run_claimed request binding pin_id

    -- `begin_drain` and `lifecycle_snapshot`
    abbrev pub drain_revision_of : String → String → String → Exec (Wrapper W) LifecycleSnapshot
    drain_revision_of coordinate revision reason =
        in_drain (begin_drain lib coordinate (some revision) reason)

    abbrev pub lifecycle_snapshot : String → String → Exec (Wrapper W) LifecycleSnapshot
    lifecycle_snapshot coordinate revision =
        in_drain (controller_snapshot lib coordinate (some revision))

    -- One cancellation: an exception counts as a failure.
    unfoldable pub cancelled : Option (String → Exec W Bool) → String → Exec (Wrapper W) Bool
    cancelled none target s = (ok false, s)
    cancelled (some f) target s =
        let (r, t) = in_world (f target) s in elim r [ ok c ↦ (ok c, t) | raise e ↦ (ok false, t) ]

    -- The loop over the requests: how many succeeded, and how many failed.
    unfoldable pub cancel_all : List String → Exec (Wrapper W) (ℕ × ℕ)
    cancel_all [] = pure (0, 0)
    cancel_all (target ∷ targets) = do
      done ← cancelled parts.cancel target
      counts ← cancel_all targets
      pure (count_outcome done counts)

    pub record CancellationDispatch : Type 0 where
      pub progress : DrainProgress
      pub attempted : ℕ
      pub succeeded : ℕ
      pub failed : ℕ

    -- `advance_drain`
    unfoldable pub advance_drain :
        String → Option String → ℕ → ℕ → Exec (Wrapper W) CancellationDispatch
    advance_drain coordinate revision deadline now = do
      p ← in_drain (advance lib coordinate revision deadline now)
      counts ← cancel_all p.cancellation_requests
      pure (record {
        progress = p;
        attempted = length p.cancellation_requests;
        succeeded = counts.0;
        failed = counts.1;
      })
