-- ===== src/Draining/Outcomes.antt =====
-- src/capabilityhub/draining.py: what the private methods leave, up to the events they record.
use capabilityhub.Base.{
  ℕ, ◌≤◌, ◌<◌, ◌==◌, String, ◌≡◌, refl, ◌⊎◌, inl, inr, Bool, true, false, Option, none, some,
  Option-cases, Bool-cases, arith, length, leb,
}
use capabilityhub.Dict.{pair_key, text_key, get, put, contains}
use capabilityhub.Draining.State.{
  LifecycleState, accepting, draining, retired, AdmissionPin, RevisionKey, Controller, Texts,
}
use capabilityhub.Draining.Core.{
  pin_count, record_count, set_revision, set_coordinate, record_event, retire_revision,
  maybe_retire_coordinate, begin_revision_drain, start_coordinate_drain, close_coordinate,
  register_new, admit_new, admit_pin, coordinate_revisions, all_retired,
}

-- The same states and pins; events may have been recorded.
pub record Same (d d' : Controller) : Type 0 where
  pub revisions : d'.revisions ≡ d.revisions
  pub coordinates : d'.coordinates ≡ d.coordinates
  pub pins : d'.pins ≡ d.pins
  pub sequence : d.sequence ≤ d'.sequence

pub same : (d : Controller) → Same d d
same d = record { revisions = refl; coordinates = refl; pins = refl; sequence = omega arith }

module _ (lib : Texts) where
  pub recorded :
      (action c : String) (r : Option String) (n : ℕ) (reason : Option String) (count : ℕ)
      (d : Controller)
      → Same d (record_event lib action c r n reason count d)
  unfolding record_event
  recorded action c r n reason count d = record {
    revisions = refl;
    coordinates = refl;
    pins = refl;
    sequence = omega arith;
  }

  module _ (reason : String) (key : RevisionKey) (d : Controller) where
    pub retire_revision_outcome :
        (forced : Bool)
        → ((retire_revision lib forced reason key d).1 ≡ d)
          ⊎ Same (set_revision key retired d) (retire_revision lib forced reason key d).1
    unfolding retire_revision record_event
    retire_revision_outcome forced = elim (Option-cases (get key d.revisions)) [
      | inl gone ↦ inl (ground arith)
      | inr (accepting, e) ↦
          rw (e, retire_revision)
            (inr (record {
              revisions = refl;
              coordinates = refl;
              pins = refl;
              sequence = omega arith;
            }))
      | inr (draining, e) ↦
          rw (e, retire_revision)
            (inr (record {
              revisions = refl;
              coordinates = refl;
              pins = refl;
              sequence = omega arith;
            }))
      | inr (retired, e) ↦ inl (ground arith)
    ]

    -- The state that the drain of an accepting revision begins with.
    abbrev pub started : Controller
    started =
        record_count lib "revision_draining" key.0 (some key.1) reason (set_revision key draining d)

    pub started-Same : Same (set_revision key draining d) started
    unfolding record_event
    started-Same =
        recorded "revision_draining" key.0 (some key.1)
          (pin_count key.0 (some key.1) (set_revision key draining d)) (some reason) 0
          (set_revision key draining d)

    pub begin_revision_drain_outcome :
        ((begin_revision_drain lib reason key d).1 ≡ d)
        ⊎ ((get key d.revisions ≡ some accepting)
            × (((begin_revision_drain lib reason key d).1 ≡ started)
                ⊎ ((pin_count key.0 (some key.1) d ≡ 0)
                    × ((begin_revision_drain lib reason key d).1
                        ≡ (retire_revision lib false "drained" key started).1))))
    unfolding begin_revision_drain
    begin_revision_drain_outcome = elim (Option-cases (get key d.revisions)) [
      | inl gone ↦ inl (ground arith)
      | inr (accepting, e) ↦ elim (Bool-cases (pin_count key.0 (some key.1) d == 0)) [
        | inl empty ↦ inr (e, inr (ground arith, rw (e, begin_revision_drain) (rw empty refl)))
        | inr busy ↦ inr (e, inl (rw (e, begin_revision_drain) (rw busy refl)))
      ]
      | inr (draining, e) ↦ inl (ground arith)
      | inr (retired, e) ↦ inl (ground arith)
    ]

  module _ (c : String) (d : Controller) where
    pub maybe_retire_coordinate_outcome :
        ((maybe_retire_coordinate lib c d).1 ≡ d)
        ⊎ ((get c d.coordinates ≡ some draining)
            × (all_retired (coordinate_revisions c d.revisions) ≡ true)
            × Same (set_coordinate c retired d) (maybe_retire_coordinate lib c d).1)
    unfolding maybe_retire_coordinate record_event
    maybe_retire_coordinate_outcome = elim (Option-cases (get c d.coordinates)) [
      | inl gone ↦ inl (ground arith)
      | inr (accepting, e) ↦ inl (ground arith)
      | inr (draining, e) ↦ elim (Bool-cases (all_retired (coordinate_revisions c d.revisions))) [
        | inl all ↦ inr (
          e,
          all,
          rw (e, maybe_retire_coordinate)
              (rw all (record {
                revisions = refl;
                coordinates = refl;
                pins = refl;
                sequence = omega arith;
              })),
        )
        | inr open_ones ↦ inl (ground arith)
      ]
      | inr (retired, e) ↦ inl (ground arith)
    ]

    pub close_coordinate_outcome :
        (forced : Bool) (reason : String)
        → ((close_coordinate lib forced reason c d).1 ≡ d)
          ⊎ Same (set_coordinate c retired d) (close_coordinate lib forced reason c d).1
    unfolding close_coordinate record_event
    close_coordinate_outcome forced reason = elim (Bool-cases (contains c d.coordinates)) [
      | inl known ↦ inr (
          rw (known, close_coordinate)
            (record { revisions = refl; coordinates = refl; pins = refl; sequence = omega arith }))
      | inr gone ↦ inl (ground arith)
    ]

    pub start_coordinate_drain_outcome :
        (reason : String)
        → ((start_coordinate_drain lib c reason d).1 ≡ d)
          ⊎ ((get c d.coordinates ≡ some accepting)
              × Same (set_coordinate c draining d) (start_coordinate_drain lib c reason d).1)
    unfolding start_coordinate_drain record_event
    start_coordinate_drain_outcome reason = elim (Option-cases (get c d.coordinates)) [
      | inl gone ↦ inl (ground arith)
      | inr (accepting, e) ↦ inr (
        e,
        rw (e, start_coordinate_drain)
            (record { revisions = refl; coordinates = refl; pins = refl; sequence = omega arith }),
      )
      | inr (draining, e) ↦ inl (ground arith)
      | inr (retired, e) ↦ inl (ground arith)
    ]

  module _ (key : RevisionKey) (d : Controller) where
    pub register_new_outcome :
        ((register_new lib key d).1 ≡ d)
        ⊎ ((length d.revisions < d.max_revisions)
            × (((get key.0 d.coordinates ≡ some accepting)
                  × Same (set_revision key accepting d) (register_new lib key d).1)
                ⊎ ((get key.0 d.coordinates ≡ none)
                    × (length d.coordinates < d.max_coordinates)
                    × Same
                        (set_revision key accepting (set_coordinate key.0 accepting d))
                        (register_new lib key d).1)))
    unfolding register_new record_event
    register_new_outcome = elim (Bool-cases (leb d.max_revisions (length d.revisions))) [
      | inl full ↦ inl (ground arith)
      | inr room ↦ elim (Option-cases (get key.0 d.coordinates)) [
        | inl new ↦ elim (Bool-cases (leb d.max_coordinates (length d.coordinates))) [
          | inl many ↦ inl (ground arith)
          | inr few ↦ inr (
            ground arith,
            inr (
              new,
              ground arith,
              rw (new, register_new)
                  (rw room (
                    rw few (record {
                      revisions = refl;
                      coordinates = refl;
                      pins = refl;
                      sequence = omega arith;
                    }))),
            ),
          )
        ]
        | inr (accepting, e) ↦ inr (
          ground arith,
          inl (
            e,
            rw (e, register_new)
                (rw room (record {
                  revisions = refl;
                  coordinates = refl;
                  pins = refl;
                  sequence = omega arith;
                })),
          ),
        )
        | inr (draining, e) ↦ inl (ground arith)
        | inr (retired, e) ↦ inl (ground arith)
      ]
    ]

module _ (c r p : String) (cancellable : Bool) (d : Controller) where
  pub admit_pin_outcome :
      ((admit_pin c r p cancellable d).1 ≡ d)
      ⊎ ((pin : AdmissionPin) × (pin.coordinate ≡ c)
          × (pin.revision ≡ r)
          × (get (c, r) d.revisions ≡ some accepting)
          × (get c d.coordinates ≡ some accepting)
          × (get p d.pins ≡ none)
          × (length d.pins < d.max_in_flight)
          × ((admit_pin c r p cancellable d).1 ≡ record d { pins = put p pin d.pins }))
  unfolding admit_pin admit_new
  admit_pin_outcome = elim (Option-cases (get (c, r) d.revisions)) [
    | inl gone ↦ inl (ground arith)
    | inr (state, e) ↦ elim (Option-cases (get c d.coordinates)) [
      | inl gone ↦ inl (ground arith)
      | inr (cs, ce) ↦ elim (Option-cases (get p d.pins)) [
        | inr (pin, used) ↦ inl (ground arith)
        | inl fresh ↦ by_state state e cs ce fresh
      ]
    ]
  ]
    where
      by_state :
          (state : LifecycleState)
          → get (c, r) d.revisions ≡ some state
          → (cs : LifecycleState) → get c d.coordinates ≡ some cs
          → get p d.pins ≡ none
          → ((admit_pin c r p cancellable d).1 ≡ d)
            ⊎ ((pin : AdmissionPin) × (pin.coordinate ≡ c)
                × (pin.revision ≡ r)
                × (get (c, r) d.revisions ≡ some accepting)
                × (get c d.coordinates ≡ some accepting)
                × (get p d.pins ≡ none)
                × (length d.pins < d.max_in_flight)
                × ((admit_pin c r p cancellable d).1 ≡ record d { pins = put p pin d.pins }))
      by_state accepting e accepting ce fresh =
          elim (Bool-cases (leb d.max_in_flight (length d.pins))) [
            | inl full ↦ inl (ground arith)
            | inr room ↦ inr (
              record {
                pin_id = p;
                coordinate = c;
                revision = r;
                cancellable = cancellable;
                cancel_requested = false;
              },
              refl,
              refl,
              e,
              ce,
              fresh,
              ground arith,
              ground arith,
            )
          ]
      by_state accepting e draining ce fresh = inl (ground arith)
      by_state accepting e retired ce fresh = inl (ground arith)
      by_state draining e cs ce fresh = inl (ground arith)
      by_state retired e cs ce fresh = inl (ground arith)
