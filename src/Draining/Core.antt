-- ===== src/Draining/Core.antt =====
-- src/capabilityhub/draining.py: the private methods of `DrainController`, and what the public ones
-- do once their texts are checked. An object of a revision or a coordinate is the entry of its key.
use capabilityhub.Base.{
  ℕ, ◌+◌, ◌-◌, String, Bool, true, false, ◌&&◌, not, Option, none, some, List, [], ◌∷◌, ◌++◌, leb,
  ◌==◌, if◌then◌else◌, ite, text_dec, length, drop,
}
use capabilityhub.Dict.{pair_key, Dict, text_key, get, put, contains}
use capabilityhub.Errors.{key_error}
use capabilityhub.Result.{Result, ok, raise}
use capabilityhub.Exec.{Exec, ◌>>=◌, ◌>>◌, pure, throw, gets}
use capabilityhub.Draining.State.{
  LifecycleState, accepting, draining, retired, DrainOutcome, cancel_requested, blocked,
  retired_outcome, AdmissionPin, LifecycleSnapshot, DrainProgress, LifecycleEvent, RevisionKey,
  Controller, coordinate_not_accepting, coordinate_not_found, pin_capacity, revision_not_found,
  state_capacity, is_accepting, is_draining, is_retired, Texts, not_accepting, pin_conflict,
}

abbrev pub text_is : String → String → Bool
text_is a b = ite (text_dec a b) true false

-- The condition of `_target_pins`.
abbrev pub is_target : String → Option String → AdmissionPin → Bool
is_target c none pin = text_is pin.coordinate c
is_target c (some r) pin = text_is pin.coordinate c && text_is pin.revision r

-- `_target_pins`, over the dict of the pins.
unfoldable pub target_pins : String → Option String → Dict String AdmissionPin → List AdmissionPin
target_pins c r [] = []
target_pins c r ((_, pin) ∷ d) =
    let rest = target_pins c r d in if is_target c r pin then pin ∷ rest else rest

-- `_pin_count`
abbrev pub pin_count : String → Option String → Controller → ℕ
pin_count c r d = length (target_pins c r d.pins)

-- `sum` of a Boolean over the pins.
unfoldable pub count_pins : (AdmissionPin → Bool) → List AdmissionPin → ℕ
count_pins test [] = 0
count_pins test (pin ∷ pins) = (if test pin then 1 else 0) + count_pins test pins

-- `_make_snapshot`
unfoldable pub make_snapshot :
    String → Option String → LifecycleState → List AdmissionPin → LifecycleSnapshot
make_snapshot c r state pins = record {
  coordinate = c;
  revision = r;
  state = state;
  in_flight = length pins;
  cancellable = count_pins (λ pin. pin.cancellable) pins;
  cancellation_requested = count_pins (λ pin. pin.cancel_requested) pins;
}

-- `_coordinate_snapshot` and `_revision_snapshot`
unfoldable pub snapshot_of :
    String → Option String → LifecycleState → Controller → LifecycleSnapshot
snapshot_of c r state d = make_snapshot c r state (target_pins c r d.pins)

-- `_snapshot`
unfoldable pub target_snapshot : String → Option String → Exec Controller LifecycleSnapshot
target_snapshot c r d = elim (get c d.coordinates) [
  | none ↦ (raise coordinate_not_found, d)
  | some state ↦ elim r [
    | none ↦ (ok (snapshot_of c none state d), d)
    | some rev ↦ elim (get (c, rev) d.revisions) [
      | none ↦ (raise revision_not_found, d)
      | some revision_state ↦ (ok (snapshot_of c (some rev) revision_state d), d)
    ]
  ]
]

-- The keys and states of `_coordinate_revisions`.
unfoldable pub coordinate_revisions :
    String → Dict RevisionKey LifecycleState → Dict RevisionKey LifecycleState
coordinate_revisions c [] = []
coordinate_revisions c ((key, state) ∷ d) =
    let rest = coordinate_revisions c d in if text_is key.0 c then (key, state) ∷ rest else rest

-- The last elements of a list, as a `deque` keeps them.
abbrev pub keep_last : ℕ → List LifecycleEvent → List LifecycleEvent
keep_last n events = drop (length events - n) events

abbrev pub set_revision : RevisionKey → LifecycleState → Controller → Controller
set_revision key state d = record d { revisions = put key state d.revisions }

abbrev pub set_coordinate : String → LifecycleState → Controller → Controller
set_coordinate c state d = record d { coordinates = put c state d.coordinates }

abbrev pub progress : DrainOutcome → List String → LifecycleSnapshot → DrainProgress
progress outcome requests snapshot = record {
  outcome = outcome;
  snapshot = snapshot;
  cancellation_requests = requests;
}

-- `for item in items: body(item)`
unfoldable pub for_each :
    {A : Type 0} → (A → Exec Controller (Unit {0})) → List A → Exec Controller (Unit {0})
for_each body [] = pure tt
for_each body (x ∷ xs) = do body x; for_each body xs

unfoldable pub all_retired : Dict RevisionKey LifecycleState → Bool
all_retired [] = true
all_retired ((_, state) ∷ d) = is_retired state && all_retired d

module _ (lib : Texts) where
  -- `_record`
  unfoldable pub record_event :
      String → String → Option String → ℕ → Option String → ℕ → Controller → Controller
  record_event action c r in_flight reason count d =
      let event : LifecycleEvent = record {
        sequence = d.sequence + 1;
        action = action;
        target_digest = lib.digest c r;
        in_flight = in_flight;
        reason = reason;
        count = count;
      } in
      record d {
        sequence = d.sequence + 1;
        events = keep_last d.event_limit (d.events ++ event ∷ []);
      }

  -- `_record` with the number of pins of the target.
  abbrev pub record_count : String → String → Option String → String → Controller → Controller
  record_count action c r reason d = record_event action c r (pin_count c r d) (some reason) 0 d

  -- `_retire_revision`
  unfoldable pub retire_revision : Bool → String → RevisionKey → Exec Controller (Unit {0})
  retire_revision forced reason key d = elim (get key d.revisions) [
    | none ↦ (raise key_error, d)
    | some state ↦ if is_retired state then (ok tt, d) else (
      ok tt,
      record_count (if forced then "revision_force_retired" else "revision_retired") key.0
          (some key.1) reason (set_revision key retired d),
    )
  ]

  -- `_maybe_retire_coordinate`
  unfoldable pub maybe_retire_coordinate : String → Exec Controller (Unit {0})
  maybe_retire_coordinate c d = elim (get c d.coordinates) [
    | none ↦ (raise key_error, d)
    | some state ↦
        if is_draining state && all_retired (coordinate_revisions c d.revisions)
        then (
          ok tt,
          record_count "coordinate_retired" c none "drained" (set_coordinate c retired d),
        )
        else (ok tt, d)
  ]

  -- `_begin_revision_drain`, of a key whose entry the caller has found.
  unfoldable pub begin_revision_drain : String → RevisionKey → Exec Controller (Unit {0})
  begin_revision_drain reason key d = elim (get key d.revisions) [
    | none ↦ (ok tt, d)
    | some state ↦
        if is_accepting state
        then (let started =
              record_count "revision_draining" key.0 (some key.1) reason
                (set_revision key draining d) in
            if pin_count key.0 (some key.1) d == 0
            then retire_revision false "drained" key started
            else (ok tt, started))
        else (ok tt, d)
  ]

  -- The body of the loop of `_retire_target`.
  unfoldable pub retire_draining :
      Bool → String → RevisionKey × LifecycleState → Exec Controller (Unit {0})
  retire_draining forced reason (key, state) =
      if is_draining state then retire_revision forced reason key else pure tt

  -- The end of `_retire_target` for a coordinate.
  unfoldable pub close_coordinate : Bool → String → String → Exec Controller (Unit {0})
  close_coordinate forced reason c d =
      if contains c d.coordinates
      then (
        ok tt,
        record_count (if forced then "coordinate_force_retired" else "coordinate_retired") c none
            reason (set_coordinate c retired d),
      )
      else (raise key_error, d)

  -- `_retire_target`
  unfoldable pub retire_target : String → Option String → String → Bool → Exec Controller (Unit {0})
  retire_target c none reason forced = do
    revisions ← gets (λ d. coordinate_revisions c d.revisions)
    for_each (retire_draining forced reason) revisions
    close_coordinate forced reason c
  retire_target c (some r) reason forced = do
    retire_revision forced reason (c, r)
    maybe_retire_coordinate c

  -- `register` of a revision that is not known.
  unfoldable pub register_new : RevisionKey → Exec Controller LifecycleSnapshot
  register_new key d =
      let add : Controller → Result LifecycleSnapshot × Controller = λ known.
        let registered =
          record_event "registered" key.0 (some key.1) 0 none 0
            (set_revision key accepting known) in
        (ok (snapshot_of key.0 (some key.1) accepting registered), registered) in
      elim (get key.0 d.coordinates) [
        | some state ↦
            if not (is_accepting state)
            then (raise coordinate_not_accepting, d)
            else if leb d.max_revisions (length d.revisions)
            then (raise state_capacity, d)
            else add d
        | none ↦
            if leb d.max_revisions (length d.revisions)
            then (raise state_capacity, d)
            else if leb d.max_coordinates (length d.coordinates)
            then (raise state_capacity, d)
            else add (set_coordinate key.0 accepting d)
      ]

  -- `release` of a pin that was there and is no longer in the dict.
  unfoldable pub release_pin : AdmissionPin → Exec Controller Bool
  release_pin pin = do
    known ← gets (λ d. get (pin.coordinate, pin.revision) d.revisions)
    left ← gets (pin_count pin.coordinate (some pin.revision))
    elim known [
      | none ↦ throw key_error
      | some state ↦ do
        if is_draining state && left == 0
            then retire_revision false "drained" (pin.coordinate, pin.revision)
            else pure tt
        maybe_retire_coordinate pin.coordinate
        pure true
    ]

  -- The first lines of `begin_drain` for a coordinate.
  unfoldable pub start_coordinate_drain : String → String → Exec Controller (Unit {0})
  start_coordinate_drain c reason d = elim (get c d.coordinates) [
    | none ↦ (raise coordinate_not_found, d)
    | some state ↦
        if is_accepting state
        then (
          ok tt,
          record_event "coordinate_draining" c none 0 (some reason) 0 (set_coordinate c draining d),
        )
        else (ok tt, d)
  ]

  -- `begin_drain` of a revision.
  unfoldable pub drain_revision : String → RevisionKey → Exec Controller LifecycleSnapshot
  drain_revision reason key = do
    target_snapshot key.0 (some key.1)
    begin_revision_drain reason key
    target_snapshot key.0 (some key.1)

  -- The loop and the return of `begin_drain` for a coordinate.
  unfoldable pub drain_revisions : String → String → Exec Controller LifecycleSnapshot
  drain_revisions c reason = do
    revisions ← gets (λ d. coordinate_revisions c d.revisions)
    for_each (λ p. begin_revision_drain reason p.0) revisions
    maybe_retire_coordinate c
    target_snapshot c none

  -- `begin_drain` of a coordinate.
  unfoldable pub drain_coordinate : String → String → Exec Controller LifecycleSnapshot
  drain_coordinate c reason = do start_coordinate_drain c reason; drain_revisions c reason

  -- `advance` of a draining target without pins.
  unfoldable pub advance_empty : String → Option String → Exec Controller DrainProgress
  advance_empty c r = do
    retire_target c r "drained" false
    snapshot ← target_snapshot c r
    pure (progress retired_outcome [] snapshot)

-- `admit` of a pin identifier that is not in use.
unfoldable pub admit_new : String → String → String → Bool → Exec Controller AdmissionPin
admit_new c r p cancellable d =
    let pin : AdmissionPin = record {
      pin_id = p;
      coordinate = c;
      revision = r;
      cancellable = cancellable;
      cancel_requested = false;
    } in
    if leb d.max_in_flight (length d.pins)
    then (raise pin_capacity, d)
    else (ok pin, record d { pins = put p pin d.pins })

abbrev pub same_bool : Bool → Bool → Bool
same_bool true b = b
same_bool false b = not b

-- The comparison of a pin that is there with the one asked for.
abbrev pub same_pin : AdmissionPin → String → String → Bool → Bool
same_pin pin c r cancellable =
    text_is pin.coordinate c && text_is pin.revision r && same_bool pin.cancellable cancellable

-- `admit`, of texts that are checked.
unfoldable pub admit_pin : String → String → String → Bool → Exec Controller AdmissionPin
admit_pin c r p cancellable d = elim (get (c, r) d.revisions) [
  | none ↦ (raise revision_not_found, d)
  | some revision_state ↦ elim (get c d.coordinates) [
    | none ↦ (raise revision_not_found, d)
    | some coordinate_state ↦
        if not (is_accepting coordinate_state && is_accepting revision_state)
        then (raise not_accepting, d)
        else elim (get p d.pins) [
          | some pin ↦ (if same_pin pin c r cancellable then ok pin else raise pin_conflict, d)
          | none ↦ admit_new c r p cancellable d
        ]
  ]
]

-- A pin whose cancellation is asked for.
abbrev pub wants_cancel : AdmissionPin → Bool
wants_cancel pin = pin.cancellable && not pin.cancel_requested

-- The loop of `advance` over the target's pins: the pins after it, and the requests.
unfoldable pub cancel_loop :
    List AdmissionPin → Dict String AdmissionPin → List String × Dict String AdmissionPin
cancel_loop [] d = ([], d)
cancel_loop (pin ∷ pins) d =
    let asked = cancel_loop pins (put pin.pin_id (record pin { cancel_requested = true }) d) in
    let left = cancel_loop pins d in
    if wants_cancel pin then (pin.pin_id ∷ asked.0, asked.1) else left

-- `advance` of a draining target with pins, past the deadline.
unfoldable pub request_cancellations :
    Texts → String → Option String → LifecycleSnapshot → Exec Controller DrainProgress
request_cancellations lib c r snapshot d =
    let (requests, pins) = cancel_loop (target_pins c r d.pins) d.pins in
    let after =
      record_event lib "cancellation_requested" c r snapshot.in_flight none (length requests)
        (record d { pins = pins }) in
    if length requests == 0
    then (ok (progress blocked [] snapshot), record d { pins = pins })
    else (do asked ← target_snapshot c r; pure (progress cancel_requested requests asked)) after
