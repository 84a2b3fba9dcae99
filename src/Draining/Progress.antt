-- ===== src/Draining/Progress.antt =====
-- src/capabilityhub/draining.py: every method, and every run of calls, moves states forward only.
use capabilityhub.Base.{
  String, ◌≡◌, refl, sym, subst, inl, inr, Bool, true, false, Option, none, some, List, [], ◌∷◌,
  arith, Option-cases, Bool-cases, if◌then◌else◌, ◌==◌, length, ◌&&◌,
}
use capabilityhub.Dict.{pair_key, text_key, get}
use capabilityhub.Result.{Result}
use capabilityhub.Exec.{Exec, lift, pure, ◌>>=◌, ◌>>◌}
use capabilityhub.Exec.Steps.{Along, bind-Along, if-Along}
use capabilityhub.Draining.{
  LifecycleState, accepting, draining, retired, AdmissionPin, RevisionKey, Controller, Texts,
  set_coordinate, for_each, retire_revision, maybe_retire_coordinate, begin_revision_drain,
  retire_draining, retire_target, close_coordinate, register_new, release_pin,
  start_coordinate_drain, drain_coordinate, drain_revision, drain_revisions, DrainProgress,
  progress, retired_outcome, cancel_requested, advance_empty, request_cancellations,
  target_snapshot, record_event, is_draining, pin_count, coordinate_revisions, cancel_loop,
  target_pins, LifecycleSnapshot,
}
use capabilityhub.Draining.Outcomes.{
  same, close_coordinate_outcome, retire_revision_outcome, started, started-Same,
  begin_revision_drain_outcome, maybe_retire_coordinate_outcome, start_coordinate_drain_outcome,
  register_new_outcome,
}
use capabilityhub.Draining.Lifecycle.{
  Later, Later-unmoved, rank, Later-refl, Later-trans, set_revision-Later, set_coordinate-Later,
  rank-le_retired, rank_known,
}

abbrev pub Forward : {A : Type 0} → Exec Controller A → Type 0
Forward m = Along Later m

pub then_Forward :
    {A B : Type 0} (m : Exec Controller A) (f : A → Exec Controller B)
    → Forward m
    → ((a : A) → Forward (f a))
    → Forward (m >>= f)
then_Forward = bind-Along Later Later-trans

pub still : {A : Type 0} (r : Result A) → Forward (lift r)
still r d = Later-refl d

pub target_snapshot-Forward : (c : String) (r : Option String) → Forward (target_snapshot c r)
unfolding target_snapshot
target_snapshot-Forward c r d = subst (Later d) (sym unchanged) (Later-refl d)
  where
    unchanged : (target_snapshot c r d).1 ≡ d
    unchanged = ground arith

for_each-Forward :
    {A : Type 0} (body : A → Exec Controller (Unit {0})) (xs : List A)
    → ((x : A) → Forward (body x))
    → Forward (for_each body xs)
unfolding for_each
for_each-Forward body [] h = Later-refl
for_each-Forward body (x ∷ xs) h =
    then_Forward (body x) (λ _. for_each body xs) (h x) (λ _. for_each-Forward body xs h)

module _ (lib : Texts) where
  retire_revision-Forward :
      (forced : Bool) (reason : String) (key : RevisionKey)
      → Forward (retire_revision lib forced reason key)
  unfolding rank
  retire_revision-Forward forced reason key d =
      elim (retire_revision_outcome lib reason key d forced) [
        | inl stays ↦ subst (Later d) (sym stays) (Later-refl d)
        | inr h ↦ set_revision-Later key retired d _ (λ t i. rank-le_retired t) h
      ]

  maybe_retire_coordinate-Forward : (c : String) → Forward (maybe_retire_coordinate lib c)
  maybe_retire_coordinate-Forward c d = elim (maybe_retire_coordinate_outcome lib c d) [
    | inl stays ↦ subst (Later d) (sym stays) (Later-refl d)
    | inr (_, _, h) ↦ set_coordinate-Later c retired d _ (λ t i. rank-le_retired t) h
  ]

  started-Later :
      (reason : String) (key : RevisionKey) (d : Controller)
      → get key d.revisions ≡ some accepting
      → Later d (started lib reason key d)
  unfolding rank
  started-Later reason key d e =
      set_revision-Later key draining d (started lib reason key d)
        (rank_known accepting draining e (omega arith)) (started-Same lib reason key d)

  begin_revision_drain-Forward :
      (reason : String) (key : RevisionKey) → Forward (begin_revision_drain lib reason key)
  begin_revision_drain-Forward reason key d = elim (begin_revision_drain_outcome lib reason key d) [
    | inl stays ↦ subst (Later d) (sym stays) (Later-refl d)
    | inr (e, inl begun) ↦ subst (Later d) (sym begun) (started-Later reason key d e)
    | inr (e, inr (_, drained)) ↦ subst (Later d) (sym drained) (
        Later-trans d (started lib reason key d) _ (started-Later reason key d e)
          (retire_revision-Forward false "drained" key (started lib reason key d)))
  ]

  start_coordinate_drain-Forward :
      (c reason : String) → Forward (start_coordinate_drain lib c reason)
  unfolding rank
  start_coordinate_drain-Forward c reason d = elim (start_coordinate_drain_outcome lib c d reason) [
    | inl stays ↦ subst (Later d) (sym stays) (Later-refl d)
    | inr (e, h) ↦
        set_coordinate-Later c draining d _ (rank_known accepting draining e (omega arith)) h
  ]

  close_coordinate-Forward :
      (forced : Bool) (reason c : String) → Forward (close_coordinate lib forced reason c)
  close_coordinate-Forward forced reason c d =
      elim (close_coordinate_outcome lib c d forced reason) [
        | inl stays ↦ subst (Later d) (sym stays) (Later-refl d)
        | inr h ↦ set_coordinate-Later c retired d _ (λ t i. rank-le_retired t) h
      ]

  retire_draining-Forward :
      (forced : Bool) (reason : String) (p : RevisionKey × LifecycleState)
      → Forward (retire_draining lib forced reason p)
  unfolding retire_draining
  retire_draining-Forward forced reason (key, state) =
      if-Along Later (is_draining state) (retire_revision lib forced reason key) (pure tt)
        (retire_revision-Forward forced reason key) Later-refl

  pub retire_target-Forward :
      (c : String) (r : Option String) (reason : String) (forced : Bool)
      → Forward (retire_target lib c r reason forced)
  unfolding retire_target
  retire_target-Forward c none reason forced d =
      let revisions = coordinate_revisions c d.revisions in
      then_Forward (for_each (retire_draining lib forced reason) revisions)
        (λ _. close_coordinate lib forced reason c)
        (for_each-Forward (retire_draining lib forced reason) revisions
          (retire_draining-Forward forced reason))
        (λ _. close_coordinate-Forward forced reason c) d
  retire_target-Forward c (some r) reason forced d =
      then_Forward (retire_revision lib forced reason (c, r)) (λ _. maybe_retire_coordinate lib c)
        (retire_revision-Forward forced reason (c, r)) (λ _. maybe_retire_coordinate-Forward c) d

  pub register_new-Later :
      (key : RevisionKey) (d : Controller)
      → get key d.revisions ≡ none
      → Later d (register_new lib key d).1
  register_new-Later key d new = elim (register_new_outcome lib key d) [
    | inl stays ↦ subst (Later d) (sym stays) (Later-refl d)
    | inr (_, inl (_, h)) ↦ set_revision-Later key accepting d _ (λ t i. absurd (cc)) h
    | inr (_, inr (fresh, _, h)) ↦
        Later-trans d (set_coordinate key.0 accepting d) _
          (set_coordinate-Later key.0 accepting d (set_coordinate key.0 accepting d)
            (λ t i. absurd (cc)) (same (set_coordinate key.0 accepting d)))
          (set_revision-Later key accepting (set_coordinate key.0 accepting d) _
            (λ t i. absurd (cc)) h)
  ]

  drain_revisions-Forward : (c reason : String) → Forward (drain_revisions lib c reason)
  unfolding drain_revisions
  drain_revisions-Forward c reason d =
      let revisions = coordinate_revisions c d.revisions in
      then_Forward (for_each (λ p. begin_revision_drain lib reason p.0) revisions)
        (λ _. maybe_retire_coordinate lib c >> target_snapshot c none)
        (for_each-Forward (λ p. begin_revision_drain lib reason p.0) revisions
          (λ p. begin_revision_drain-Forward reason p.0))
        (λ _.
          then_Forward (maybe_retire_coordinate lib c) (λ _. target_snapshot c none)
            (maybe_retire_coordinate-Forward c) (λ _. target_snapshot-Forward c none))
        d

  pub drain_coordinate-Forward : (c reason : String) → Forward (drain_coordinate lib c reason)
  unfolding drain_coordinate
  drain_coordinate-Forward c reason =
      then_Forward (start_coordinate_drain lib c reason) (λ _. drain_revisions lib c reason)
        (start_coordinate_drain-Forward c reason) (λ _. drain_revisions-Forward c reason)

  pub drain_revision-Forward :
      (reason : String) (key : RevisionKey) → Forward (drain_revision lib reason key)
  unfolding drain_revision
  drain_revision-Forward reason key =
      then_Forward (target_snapshot key.0 (some key.1))
        (λ _. begin_revision_drain lib reason key >> target_snapshot key.0 (some key.1))
        (target_snapshot-Forward key.0 (some key.1))
        (λ _.
          then_Forward (begin_revision_drain lib reason key)
            (λ _. target_snapshot key.0 (some key.1)) (begin_revision_drain-Forward reason key)
            (λ _. target_snapshot-Forward key.0 (some key.1)))

  -- A snapshot that is turned into a progress.
  snapshot_then-Forward :
      (c : String) (r : Option String) (g : LifecycleSnapshot → DrainProgress)
      → Forward (target_snapshot c r >>= λ s. pure (g s))
  snapshot_then-Forward c r g =
      then_Forward (target_snapshot c r) (λ s. pure (g s)) (target_snapshot-Forward c r)
        (λ _. Later-refl)

  pub advance_empty-Forward : (c : String) (r : Option String) → Forward (advance_empty lib c r)
  unfolding advance_empty
  advance_empty-Forward c r =
      then_Forward (retire_target lib c r "drained" false)
        (λ _. target_snapshot c r >>= λ s. pure (progress retired_outcome [] s))
        (retire_target-Forward c r "drained" false)
        (λ _. snapshot_then-Forward c r (progress retired_outcome []))

  -- What `advance` leaves where it asks for cancellations.
  abbrev cancelled :
      (c : String) (r : Option String) (s : LifecycleSnapshot) → Controller → Controller
  cancelled c r s d =
      let (requests, pins) = cancel_loop (target_pins c r d.pins) d.pins in
      record_event lib "cancellation_requested" c r s.in_flight none (length requests)
        (record d { pins = pins })

  cancelled-Later :
      (c : String) (r : Option String) (s : LifecycleSnapshot) (d : Controller)
      → Later d (cancelled c r s d)
  unfolding record_event
  cancelled-Later c r s d = Later-unmoved d (cancelled c r s d) refl refl (omega arith)

  pub request_cancellations-Forward :
      (c : String) (r : Option String) (s : LifecycleSnapshot)
      → Forward (request_cancellations lib c r s)
  unfolding request_cancellations
  request_cancellations-Forward c r s d =
      elim (Bool-cases (length (cancel_loop (target_pins c r d.pins) d.pins).0 == 0)) [
        | inl nothing ↦
            rw (nothing, request_cancellations) (Later-unmoved d _ refl refl (omega arith))
        | inr asked ↦
            rw (asked, request_cancellations)
              (Later-trans d (cancelled c r s d) _ (cancelled-Later c r s d) (
                snapshot_then-Forward c r
                  (progress cancel_requested (cancel_loop (target_pins c r d.pins) d.pins).0)
                  (cancelled c r s d)))
      ]

  pub release_pin-Forward : (pin : AdmissionPin) → Forward (release_pin lib pin)
  unfolding release_pin
  release_pin-Forward pin d = elim (Option-cases (get (pin.coordinate, pin.revision) d.revisions)) [
    | inl gone ↦ rw (gone, release_pin) (Later-refl d)
    | inr (state, e) ↦
        rw (e, release_pin)
          (then_Forward
            (if is_draining state && (pin_count pin.coordinate (some pin.revision) d == 0)
              then retire_revision lib false "drained" (pin.coordinate, pin.revision)
              else pure tt)
            (λ _. maybe_retire_coordinate lib pin.coordinate >> pure true)
            (if-Along Later
              (is_draining state && (pin_count pin.coordinate (some pin.revision) d == 0))
              (retire_revision lib false "drained" (pin.coordinate, pin.revision)) (pure tt)
              (retire_revision-Forward false "drained" (pin.coordinate, pin.revision)) Later-refl)
            (λ _.
              then_Forward (maybe_retire_coordinate lib pin.coordinate) (λ _. pure true)
                (maybe_retire_coordinate-Forward pin.coordinate) (λ _. Later-refl))
            d)
  ]
