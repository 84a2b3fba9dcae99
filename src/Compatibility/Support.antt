-- ===== src/Compatibility/Support.antt =====
-- src/capabilityhub/compatibility.py: how long a deprecated API version is still accepted.
use capabilityhub.Base.{ℕ, ◌+◌, ◌≤◌, ◌<◌, String, ◌≡◌, true, false, some, List, arith}
use capabilityhub.Result.{ok}
use capabilityhub.Compatibility.{
  VersionLifecycle, create_lifecycle, find_version, assess, is_selected, reached,
}

-- A lifecycle that the constructor accepts and that is deprecated on a day is not deprecated before
-- its introduction, has a target to migrate to, and its sunset is 180 days later at least.
deprecation_window :
    (v : VersionLifecycle) (day : ℕ)
    → create_lifecycle v ≡ ok v
    → v.deprecated_on ≡ some day
    → (v.introduced_on ≤ day)
      × (is_selected v.migration_target ≡ true)
      × ((as_of : ℕ) → as_of < day + 180 → reached v.sunset_on as_of ≡ false)
unfolding create_lifecycle
deprecation_window v day made on = (ground arith, ground arith, λ as_of early. ground arith)

-- For the 180 days from the day of its deprecation on, a version whose lifecycle the constructor
-- accepts is still accepted, is reported as deprecated, and has a target to migrate to.
pub deprecated_accepted :
    (versions : List VersionLifecycle) (version : String) (v : VersionLifecycle) (day as_of : ℕ)
    → find_version version versions ≡ some v
    → create_lifecycle v ≡ ok v
    → v.deprecated_on ≡ some day
    → day ≤ as_of
    → as_of < day + 180
    → ((assess versions version as_of).accepted ≡ true)
      × ((assess versions version as_of).deprecated ≡ true)
      × (is_selected (assess versions version as_of).migration_target ≡ true)
unfolding assess
deprecated_accepted versions version v day as_of found made on late early =
    let (after, target, before) = deprecation_window v day made on in
    let still = before as_of early in (ground arith, ground arith, ground arith)
