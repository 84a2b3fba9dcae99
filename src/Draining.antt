-- ===== src/Draining.antt =====
-- src/capabilityhub/draining.py: `DrainController`, which admits executions to capability revisions
-- and drains revisions and whole coordinates. The lock makes each method one step.
mod State
mod Core
pub mod Outcomes
pub mod Lifecycle
pub mod Progress
pub mod Calls
pub mod Pins
pub mod Quiet
pub mod Graceful
pub mod Unforced
pub mod Admission
pub mod Releasing
mod Tests
unfoldable pub use State.*
unfoldable pub use Core.*
use capabilityhub.Base.{
  ℕ, String, Bool, false, true, not, Option, none, some, [], ltb, ◌==◌, if◌then◌else◌,
}
use capabilityhub.Dict.{text_key, pair_key, get, remove}
use capabilityhub.Result.{Result, ok, raise, raise_if}
use capabilityhub.Exec.{Exec, ◌>>=◌, ◌>>◌, pure, throw, lift, gets, modify}

module _ (lib : Texts) where
  -- `register`, of texts that are checked.
  unfoldable pub register_revision : RevisionKey → Exec Controller LifecycleSnapshot
  register_revision key d = elim (get key d.revisions) [
    | some state ↦ (ok (snapshot_of key.0 (some key.1) state d), d)
    | none ↦ register_new lib key d
  ]

  -- `register`
  unfoldable pub register : String → String → Exec Controller LifecycleSnapshot
  register coordinate revision = do
    c ← lift (identifier lib coordinate)
    r ← lift (identifier lib revision)
    register_revision (c, r)

  -- `admit`
  unfoldable pub admit : String → String → String → Bool → Exec Controller AdmissionPin
  admit coordinate revision pin_id cancellable = do
    c ← lift (identifier lib coordinate)
    r ← lift (identifier lib revision)
    p ← lift (identifier lib pin_id)
    admit_pin c r p cancellable

  -- `release`, of a text that is checked.
  unfoldable pub release_known : String → Exec Controller Bool
  release_known p d =
      let popped = record d { pins = remove p d.pins } in
      elim (get p d.pins) [ none ↦ (ok false, popped) | some pin ↦ release_pin lib pin popped ]

  -- `release`
  unfoldable pub release : String → Exec Controller Bool
  release pin_id = do p ← lift (identifier lib pin_id); release_known p

  -- `begin_drain`, of texts that are checked.
  unfoldable pub drain_target : String → Option String → String → Exec Controller LifecycleSnapshot
  drain_target c none why = drain_coordinate lib c why
  drain_target c (some r) why = drain_revision lib why (c, r)

  -- `begin_drain`
  unfoldable pub begin_drain : String → Option String → String → Exec Controller LifecycleSnapshot
  begin_drain coordinate revision reason = do
    c ← lift (identifier lib coordinate)
    r ← lift (optional_identifier lib revision)
    why ← lift (reason_code reason)
    drain_target c r why

  -- `advance` from the snapshot on, at the time `now`.
  unfoldable pub advance_target :
      String → Option String → ℕ → ℕ → LifecycleSnapshot → Exec Controller DrainProgress
  advance_target c r deadline now snapshot =
      if is_retired snapshot.state
      then pure (progress retired_outcome [] snapshot)
      else if not (is_draining snapshot.state)
      then throw not_draining
      else if snapshot.in_flight == 0
      then advance_empty lib c r
      else if ltb now deadline
      then pure (progress waiting [] snapshot)
      else request_cancellations lib c r snapshot

  -- `advance`; times are numbers of a unit.
  unfoldable pub advance : String → Option String → ℕ → ℕ → Exec Controller DrainProgress
  advance coordinate revision deadline now = do
    c ← lift (identifier lib coordinate)
    r ← lift (optional_identifier lib revision)
    snapshot ← target_snapshot c r
    advance_target c r deadline now snapshot

  -- `force_retire`, of texts that are checked and a policy that allows it.
  unfoldable pub retire_snapshot :
      String → Option String → String → LifecycleSnapshot → Exec Controller LifecycleSnapshot
  retire_snapshot c r why before =
      if is_draining before.state
      then retire_target lib c r why true >> target_snapshot c r
      else throw not_draining

  -- `force_retire`
  unfoldable pub force_retire :
      String → Option String → ForceRetirePolicy → String → Exec Controller LifecycleSnapshot
  force_retire coordinate revision policy reason = do
    c ← lift (identifier lib coordinate)
    r ← lift (optional_identifier lib revision)
    why ← lift (reason_code reason)
    lift (raise_if (not (allows_in_flight policy)) force_retire_denied)
    before ← target_snapshot c r
    retire_snapshot c r why before

  -- `snapshot`
  unfoldable pub controller_snapshot : String → Option String → Exec Controller LifecycleSnapshot
  controller_snapshot coordinate revision = do
    c ← lift (identifier lib coordinate)
    r ← lift (optional_identifier lib revision)
    target_snapshot c r
