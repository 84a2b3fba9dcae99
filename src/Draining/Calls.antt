-- ===== src/Draining/Calls.antt =====
-- src/capabilityhub/draining.py: runs of calls of the controller's public methods.
use capabilityhub.Base.{
  ℕ, String, refl, sym, subst, inl, inr, Bool, true, not, Option, none, some, [], arith,
  Option-cases, ◌==◌, ltb,
}
use capabilityhub.Dict.{pair_key, text_key, get, put, remove}
use capabilityhub.Result.{Result, raise_if}
use capabilityhub.Exec.{Exec, lift, pure, throw, ◌>>=◌, ◌>>◌}
use capabilityhub.Exec.Steps.{if-Along}
use capabilityhub.Draining.{
  RevisionKey, Controller, Texts, retire_target, advance_empty, admit_pin, request_cancellations,
  register, admit, release, begin_drain, advance, advance_target, force_retire, register_revision,
  release_known, drain_target, retire_snapshot, ForceRetirePolicy, target_snapshot, identifier,
  optional_identifier, is_draining, is_retired, LifecycleSnapshot, progress, retired_outcome,
  waiting, reason_code, allows_in_flight, force_retire_denied, not_draining,
}
use capabilityhub.Draining.Outcomes.{admit_pin_outcome}
use capabilityhub.Draining.Lifecycle.{Later, Later-unmoved, Later-refl, Later-trans}
use capabilityhub.Draining.Progress.{
  Forward, then_Forward, still, target_snapshot-Forward, retire_target-Forward, register_new-Later,
  drain_coordinate-Forward, drain_revision-Forward, advance_empty-Forward,
  request_cancellations-Forward, release_pin-Forward,
}

-- The identifiers are checked first.
after_lift :
    {A B : Type 0} (r : Result A) (f : A → Exec Controller B)
    → ((a : A) → Forward (f a))
    → Forward (lift r >>= f)
after_lift r f = then_Forward (lift r) f (still r)

-- The controller after a call.
pub data Call (lib : Texts) (d : Controller) : Controller → Type 0 where
  registers : (coordinate revision : String) → Call lib d (register lib coordinate revision d).1
  admits :
      (coordinate revision pin_id : String) (cancellable : Bool)
      → Call lib d (admit lib coordinate revision pin_id cancellable d).1
  releases : (pin_id : String) → Call lib d (release lib pin_id d).1
  drains :
      (coordinate : String) (revision : Option String) (reason : String)
      → Call lib d (begin_drain lib coordinate revision reason d).1
  advances :
      (coordinate : String) (revision : Option String) (deadline now : ℕ)
      → Call lib d (advance lib coordinate revision deadline now d).1
  forces :
      (coordinate : String) (revision : Option String) (policy : ForceRetirePolicy)
      (reason : String)
      → Call lib d (force_retire lib coordinate revision policy reason d).1

pub data Calls (lib : Texts) (a : Controller) : Controller → Type 0 where
  here : Calls lib a a
  next : {b c : Controller} → Calls lib a b → Call lib b c → Calls lib a c

module _ (lib : Texts) where
  register_revision-Forward : (key : RevisionKey) → Forward (register_revision lib key)
  unfolding register_revision
  register_revision-Forward key d = elim (Option-cases (get key d.revisions)) [
    | inl new ↦ rw (new, register_revision) (register_new-Later lib key d new)
    | inr (state, e) ↦ rw (e, register_revision) (Later-refl d)
  ]

  register-Forward : (coordinate revision : String) → Forward (register lib coordinate revision)
  unfolding register
  register-Forward coordinate revision =
      after_lift (identifier lib coordinate)
        (λ c. lift (identifier lib revision) >>= λ r. register_revision lib (c, r))
        (λ c.
          after_lift (identifier lib revision) (λ r. register_revision lib (c, r))
            (λ r. register_revision-Forward (c, r)))

  admit_pin-Forward : (c r p : String) (cancellable : Bool) → Forward (admit_pin c r p cancellable)
  admit_pin-Forward c r p cancellable d = elim (admit_pin_outcome c r p cancellable d) [
    | inl stays ↦ subst (Later d) (sym stays) (Later-refl d)
    | inr (pin, _, _, _, _, _, _, added) ↦
        subst (Later d) (sym added)
          (Later-unmoved d (record d { pins = put p pin d.pins }) refl refl (omega arith))
  ]

  admit-Forward :
      (coordinate revision pin_id : String) (cancellable : Bool)
      → Forward (admit lib coordinate revision pin_id cancellable)
  unfolding admit
  admit-Forward coordinate revision pin_id cancellable =
      after_lift (identifier lib coordinate)
        (λ c. lift (identifier lib revision) >>= λ r.
          lift (identifier lib pin_id) >>= λ p. admit_pin c r p cancellable)
        (λ c.
          after_lift (identifier lib revision)
            (λ r. lift (identifier lib pin_id) >>= λ p. admit_pin c r p cancellable)
            (λ r.
              after_lift (identifier lib pin_id) (λ p. admit_pin c r p cancellable)
                (λ p. admit_pin-Forward c r p cancellable)))

  release_known-Forward : (p : String) → Forward (release_known lib p)
  unfolding release_known
  release_known-Forward p d =
      let popped = record d { pins = remove p d.pins } in
      let here : Later d popped = Later-unmoved d popped refl refl (omega arith) in
      elim (Option-cases (get p d.pins)) [
        | inl unknown ↦ rw (unknown, release_known) here
        | inr (pin, e) ↦
            rw (e, release_known) (Later-trans d popped _ here (release_pin-Forward lib pin popped))
      ]

  release-Forward : (pin_id : String) → Forward (release lib pin_id)
  unfolding release
  release-Forward pin_id =
      after_lift (identifier lib pin_id) (release_known lib) release_known-Forward

  drain_target-Forward :
      (c : String) (r : Option String) (why : String) → Forward (drain_target lib c r why)
  unfolding drain_target
  drain_target-Forward c none why = drain_coordinate-Forward lib c why
  drain_target-Forward c (some r) why = drain_revision-Forward lib why (c, r)

  begin_drain-Forward :
      (coordinate : String) (revision : Option String) (reason : String)
      → Forward (begin_drain lib coordinate revision reason)
  unfolding begin_drain
  begin_drain-Forward coordinate revision reason =
      after_lift (identifier lib coordinate)
        (λ c. lift (optional_identifier lib revision) >>= λ r.
          lift (reason_code reason) >>= λ why. drain_target lib c r why)
        (λ c.
          after_lift (optional_identifier lib revision)
            (λ r. lift (reason_code reason) >>= λ why. drain_target lib c r why)
            (λ r.
              after_lift (reason_code reason) (λ why. drain_target lib c r why)
                (drain_target-Forward c r)))

  advance_target-Forward :
      (c : String) (r : Option String) (deadline now : ℕ) (s : LifecycleSnapshot)
      → Forward (advance_target lib c r deadline now s)
  unfolding advance_target
  advance_target-Forward c r deadline now s =
      if-Along Later (is_retired s.state) (pure (progress retired_outcome [] s)) _ Later-refl (
        if-Along Later (not (is_draining s.state)) (throw not_draining) _ Later-refl (
          if-Along Later (s.in_flight == 0) (advance_empty lib c r) _
            (advance_empty-Forward lib c r)
            (if-Along Later (ltb now deadline) (pure (progress waiting [] s))
              (request_cancellations lib c r s) Later-refl
              (request_cancellations-Forward lib c r s))))

  advance-Forward :
      (coordinate : String) (revision : Option String) (deadline now : ℕ)
      → Forward (advance lib coordinate revision deadline now)
  unfolding advance
  advance-Forward coordinate revision deadline now =
      after_lift (identifier lib coordinate)
        (λ c. lift (optional_identifier lib revision) >>= λ r.
          target_snapshot c r >>= λ s. advance_target lib c r deadline now s)
        (λ c.
          after_lift (optional_identifier lib revision)
            (λ r. target_snapshot c r >>= λ s. advance_target lib c r deadline now s)
            (λ r.
              then_Forward (target_snapshot c r) (λ s. advance_target lib c r deadline now s)
                (target_snapshot-Forward c r) (advance_target-Forward c r deadline now)))

  retire_snapshot-Forward :
      (c : String) (r : Option String) (why : String) (s : LifecycleSnapshot)
      → Forward (retire_snapshot lib c r why s)
  unfolding retire_snapshot
  retire_snapshot-Forward c r why s =
      if-Along Later (is_draining s.state) (retire_target lib c r why true >> target_snapshot c r)
        (throw not_draining)
        (then_Forward (retire_target lib c r why true) (λ _. target_snapshot c r)
          (retire_target-Forward lib c r why true) (λ _. target_snapshot-Forward c r))
        Later-refl

  force_retire-Forward :
      (coordinate : String) (revision : Option String) (policy : ForceRetirePolicy)
      (reason : String)
      → Forward (force_retire lib coordinate revision policy reason)
  unfolding force_retire
  force_retire-Forward coordinate revision policy reason =
      after_lift (identifier lib coordinate)
        (λ c. lift (optional_identifier lib revision) >>= λ r.
          lift (reason_code reason) >>= λ why. forced c r why)
        (λ c.
          after_lift (optional_identifier lib revision)
            (λ r. lift (reason_code reason) >>= λ why. forced c r why)
            (λ r.
              after_lift (reason_code reason) (λ why. forced c r why)
                (λ why.
                  after_lift (raise_if (not (allows_in_flight policy)) force_retire_denied)
                    (λ _. target_snapshot c r >>= retire_snapshot lib c r why)
                    (λ _.
                      then_Forward (target_snapshot c r) (retire_snapshot lib c r why)
                        (target_snapshot-Forward c r) (retire_snapshot-Forward c r why)))))
    where
      forced : String → Option String → String → Exec Controller LifecycleSnapshot
      forced c r why = lift (raise_if (not (allows_in_flight policy)) force_retire_denied) >>= λ _.
          target_snapshot c r >>= retire_snapshot lib c r why

  Call-Later : {d d' : Controller} → Call lib d d' → Later d d'
  Call-Later {d} (registers coordinate revision) = register-Forward coordinate revision d
  Call-Later {d} (admits coordinate revision pin_id cancellable) =
      admit-Forward coordinate revision pin_id cancellable d
  Call-Later {d} (releases pin_id) = release-Forward pin_id d
  Call-Later {d} (drains coordinate revision reason) =
      begin_drain-Forward coordinate revision reason d
  Call-Later {d} (advances coordinate revision deadline now) =
      advance-Forward coordinate revision deadline now d
  Call-Later {d} (forces coordinate revision policy reason) =
      force_retire-Forward coordinate revision policy reason d

  -- Over any calls, refused ones included, no revision and no coordinate is forgotten or goes back
  -- from draining to accepting or from retired to either, and the event sequence never decreases.
  pub Calls-Later : {d d' : Controller} → Calls lib d d' → Later d d'
  Calls-Later {d} here = Later-refl d
  Calls-Later {d} {d'} (next {b} run call) = Later-trans d b d' (Calls-Later run) (Call-Later call)
