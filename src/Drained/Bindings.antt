-- ===== src/Drained/Bindings.antt =====
-- src/capabilityhub/drained_service.py: the bindings of executions and their resolver. The signer, the
-- registry and the decision whether an operation can be cancelled are parameters.
use capabilityhub.Base.{
  String, Bool, true, false, ◌||◌, Option, none, some, if◌then◌else◌, ite, text_dec,
}
use capabilityhub.Errors.{Exc, hub, budget_exceeded, value_error, hub_error, internal, reference}
use capabilityhub.Result.{Result, ok, raise}
use capabilityhub.Exec.{Exec, pure, throw, lift, ◌>>=◌}
use capabilityhub.Models.Manifests.{
  OperationSpec, CapabilityManifest, ExecutionRequest, find_operation,
  coordinate as identity_coordinate, revision as identity_revision,
}

-- `_wrapper_error`
abbrev pub wrapper_error : String → Exc
wrapper_error code = hub_error code internal

-- `isinstance(error, CapabilityHubError)`
abbrev pub is_hub_error : Exc → Bool
is_hub_error (hub _) = true
is_hub_error (budget_exceeded _ _ _ _) = true
is_hub_error _ = false

-- `except CapabilityHubError: raise` and `except Exception` with another error.
abbrev pub wrap_others : {S A : Type 0} → String → Exec S A → Exec S A
wrap_others code m s =
    let (r, t) = m s in
    elim r [
      | ok a ↦ (ok a, t)
      | raise e ↦ (raise (if is_hub_error e then e else wrapper_error code), t)
    ]

-- `except Exception` with another error.
abbrev pub wrap_all : {S A : Type 0} → String → Exec S A → Exec S A
wrap_all code m s =
    let (r, t) = m s in elim r [ ok a ↦ (ok a, t) | raise e ↦ (raise (wrapper_error code), t) ]

module _ (Json : Type 0) where
  pub record ExecutionBinding : Type 0 where
    pub coordinate : String
    pub revision : String
    pub operation : OperationSpec Json
    pub cancellable : Bool

  -- `ExecutionBinding.__post_init__`
  unfoldable pub create_binding : ExecutionBinding → Result ExecutionBinding
  create_binding b =
      if ite (text_dec b.coordinate "") true false || ite (text_dec b.revision "") true false
      then raise value_error
      else ok b

  -- What the resolver is given: `verify` returns the revision of the claims.
  pub record Resolver (W : Type 0) : Type 0 where
    pub verify : String → Exec W String
    pub registry_revision : String → Exec W (CapabilityManifest Json)
    pub can_cancel : CapabilityManifest Json → OperationSpec Json → Exec W Bool

  abbrev pub unknown_operation : Exc
  unknown_operation = hub_error "unknown_operation" reference

  -- `manifest.operation(request.operation)`, and the error where there is none.
  abbrev pub operation_of : {W : Type 0} → Option (OperationSpec Json) → Exec W (OperationSpec Json)
  operation_of none = throw unknown_operation
  operation_of (some o) = pure o

  -- `SignedExecutionBindingResolver.resolve`
  unfoldable pub resolve :
      {W : Type 0} → Resolver W → ExecutionRequest Json → Exec W ExecutionBinding
  resolve resolver request = do
    revision ← resolver.verify request.execution_ref
    manifest ← resolver.registry_revision revision
    operation ← operation_of (find_operation manifest request.operation)
    cancellable ←
        wrap_others "execution_cancellability_resolution_failed"
          (resolver.can_cancel manifest operation)
    lift (
        create_binding (record {
          coordinate = identity_coordinate manifest.identity;
          revision = identity_revision manifest.identity;
          operation = operation;
          cancellable = cancellable;
        }))
