-- ===== src/Degraded/Freshness.antt =====
-- src/capabilityhub/degraded.py: when an observation still counts.
use capabilityhub.Base.{ℕ, ◌+◌, ◌≤◌, ◌≡◌, ◌↔◌, arith}
use capabilityhub.Degraded.{available, DependencyObservation, effective}

-- A dependency counts as available exactly when it was observed available, not after the present
-- time and no longer ago than the time to live of the observation.
pub effective-available :
    (o : DependencyObservation) (now : ℕ)
    → (effective o now ≡ available)
      ↔ ((o.status ≡ available) × (o.observed_at ≤ now) × (now ≤ o.observed_at + o.ttl_seconds))
unfolding effective
effective-available o now = (λ e. (ground arith, ground arith, ground arith), λ h. ground arith)
