-- ===== src/Errors.antt =====
-- errors.py: the error that the control core raises, and the Python exceptions beside it.
-- The safe message is fixed by the code, and is left out.
use capabilityhub.Base.{ℕ, String, Bool, true, false}

pub data ErrorCategory : Type 0 where
  input reference policy approval budget conflict provider dependency timeout cancelled internal :
      ErrorCategory

pub record CapabilityHubError : Type 0 where
  pub code : String
  pub category : ErrorCategory
  pub retryable : Bool

-- What a raise statement can throw. `budget_exceeded` is the subclass with its details.
pub data Exc : Type 0 where
  hub : CapabilityHubError → Exc
  budget_exceeded : (scope counter : String) (limit requested_total : ℕ) → Exc
  value_error type_error runtime_error key_error os_error : Exc

-- A `CapabilityHubError` with the default `retryable=False`.
abbrev pub hub_error : String → ErrorCategory → Exc
hub_error code category = hub (record { code = code; category = category; retryable = false })

-- `except OSError`
abbrev pub is_os_error : Exc → Bool
is_os_error os_error = true
is_os_error _ = false
