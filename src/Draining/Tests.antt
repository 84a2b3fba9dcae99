-- ===== src/Draining/Tests.antt =====
-- src/capabilityhub/draining.py: a drain that waits for its last pin, and the theorems at it.
use capabilityhub.Base.{◌≡◌, refl, true, false, none, some, [], text_dec}
use capabilityhub.Dict.{pair_key, pair_dec, text_key, get}
use capabilityhub.Result.{ok}
use capabilityhub.Draining.{
  draining, retired, AdmissionPin, Controller, Texts, create_controller, identifier, reason_code,
  target_pins, count_pins, make_snapshot, snapshot_of, target_snapshot, coordinate_revisions,
  for_each, all_retired, record_event, retire_revision, maybe_retire_coordinate,
  begin_revision_drain, retire_draining, close_coordinate, retire_target, register_new, release_pin,
  start_coordinate_drain, drain_revisions, drain_coordinate, drain_revision, advance_empty,
  admit_new, admit_pin, cancel_loop, request_cancellations, register_revision, register, admit,
  release_known, release, drain_target, begin_drain, advance_target, advance, retire_snapshot,
  force_retire,
}
use capabilityhub.Draining.Lifecycle.{Later}
use capabilityhub.Draining.Calls.{Call, Calls, Calls-Later}
use capabilityhub.Draining.Quiet.{IsQuiet}
use capabilityhub.Draining.Unforced.{GracefulCall, GracefulCalls, GracefulCalls-IsQuiet}
use capabilityhub.Draining.Admission.{Granted, admit-Granted}

program : Unit {0}
unfolding text_dec pair_dec create_controller identifier reason_code target_pins count_pins
    make_snapshot snapshot_of target_snapshot coordinate_revisions for_each all_retired record_event
    retire_revision maybe_retire_coordinate begin_revision_drain retire_draining close_coordinate
    retire_target register_new release_pin start_coordinate_drain drain_revisions drain_coordinate
    drain_revision advance_empty admit_new admit_pin cancel_loop request_cancellations
    register_revision register admit release_known release drain_target begin_drain advance_target
    advance retire_snapshot force_retire
program = tt

abbrev texts : Texts
texts = record { normal_form = λ s. s; has_control = λ s. false; digest = λ c r. c }

abbrev empty : Controller
empty = record {
  max_coordinates = 2;
  max_revisions = 2;
  max_in_flight = 2;
  event_limit = 2;
  coordinates = [];
  revisions = [];
  pins = [];
  events = [];
  sequence = 0;
}

created : create_controller 2 2 2 2 ≡ ok empty
unfolding program
created = refl

abbrev registered : Controller
registered = (register texts "a" "1" empty).1

abbrev admitted : Controller
admitted = (admit texts "a" "1" "p" true registered).1

abbrev drained : Controller
drained = (begin_drain texts "a" none "update" admitted).1

abbrev released : Controller
released = (release texts "p" drained).1

-- The revision is retired when its pin is released, and the coordinate with it.
waits_for_pin :
    (get ("a", "1") drained.revisions ≡ some draining)
    × (get ("a", "1") released.revisions ≡ some retired)
    × (get "a" released.coordinates ≡ some retired)
    × (released.sequence ≡ 5)
unfolding program
waits_for_pin = (refl, refl, refl, refl)

Calls-Later_example : Later empty released
Calls-Later_example = Calls-Later texts (
    Calls.next
      (Calls.next
        (Calls.next (Calls.next Calls.here (Call.registers "a" "1")) (Call.admits "a" "1" "p" true))
        (Call.drains "a" none "update"))
      (Call.releases "p"))

GracefulCalls-IsQuiet_example : IsQuiet released
GracefulCalls-IsQuiet_example =
    GracefulCalls-IsQuiet texts
      (GracefulCalls.next
        (GracefulCalls.next
          (GracefulCalls.next
            (GracefulCalls.next GracefulCalls.here (GracefulCall.registers "a" "1"))
            (GracefulCall.admits "a" "1" "p" true))
          (GracefulCall.drains "a" none "update"))
        (GracefulCall.releases "p"))
      tt

abbrev pin : AdmissionPin
pin = record {
  pin_id = "p";
  coordinate = "a";
  revision = "1";
  cancellable = true;
  cancel_requested = false;
}

admit-Granted_example : Granted registered admitted pin
unfolding program
admit-Granted_example = admit-Granted texts "a" "1" "p" true registered pin refl
