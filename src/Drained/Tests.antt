-- ===== src/Drained/Tests.antt =====
-- src/capabilityhub/drained_service.py: an execution that returns and ones that raise, and the theorem at
-- one.
use capabilityhub.Base.{
  ℕ, ◌+◌, String, ◌≡◌, refl, true, false, none, some, [], ◌∷◌, text_dec, arith,
}
use capabilityhub.Dict.{text_key, pair_dec}
use capabilityhub.Result.{ok, raise}
use capabilityhub.Errors.{value_error}
use capabilityhub.Exec.{pure}
use capabilityhub.Exec.Steps.{Along}
use capabilityhub.Models.{execute as execute_type, read}
use capabilityhub.Models.Manifests.{OperationSpec, ExecutionRequest, ExecutionResult}
use capabilityhub.Draining.{
  Texts, Controller, create_controller, identifier, reason_code, draining, cancel_requested,
  target_pins, count_pins, make_snapshot, snapshot_of, target_snapshot, coordinate_revisions,
  for_each, all_retired, record_event, retire_revision, maybe_retire_coordinate,
  begin_revision_drain, retire_draining, close_coordinate, retire_target, register_new, release_pin,
  start_coordinate_drain, drain_revisions, drain_coordinate, drain_revision, advance_empty,
  admit_new, admit_pin, cancel_loop, request_cancellations, register_revision, register, admit,
  release_known, release, drain_target, begin_drain, advance_target, advance,
}
use capabilityhub.Drained.{
  ExecutionBinding, create_binding, Wrapper, wrapper_error, claim_pin, discard_pin, release_error,
  clean_up, Parts, create_service, release_after, admit_and_run, run_pinned, pin_and_run,
  run_claimed, check_operation, check_pin_id, execute, lifecycle_not_accepting, cancelled,
  cancel_all, advance_drain, CancellationDispatch,
}
use capabilityhub.Drained.Tidy.{Leaves}
use capabilityhub.Drained.Dispatch.{dispatched, advance_drain-dispatched}
use capabilityhub.Drained.Released.{IsStable, execute-Leaves}

program : Unit {0}
unfolding text_dec pair_dec create_controller identifier reason_code target_pins count_pins
    make_snapshot snapshot_of target_snapshot coordinate_revisions for_each all_retired record_event
    retire_revision maybe_retire_coordinate begin_revision_drain retire_draining close_coordinate
    retire_target register_new release_pin start_coordinate_drain drain_revisions drain_coordinate
    drain_revision advance_empty admit_new admit_pin cancel_loop request_cancellations
    register_revision register admit release_known release drain_target begin_drain advance_target
    advance create_binding claim_pin discard_pin release_error clean_up create_service release_after
    admit_and_run run_pinned pin_and_run run_claimed check_operation check_pin_id execute cancelled
    cancel_all advance_drain
program = tt

abbrev texts : Texts
texts = record { normal_form = λ s. s; has_control = λ s. false; digest = λ c r. c }

abbrev controller : Controller
controller = record {
  max_coordinates = 2;
  max_revisions = 2;
  max_in_flight = 2;
  event_limit = 4;
  coordinates = [];
  revisions = [];
  pins = [];
  sequence = 0;
  events = [];
}

abbrev registered : Controller
registered = (register texts "a/b" "1" controller).1

abbrev operation : OperationSpec String
operation = record {
  name = "send";
  operation_type = execute_type;
  input_schema = [];
  output_schema = [];
  side_effect = read;
  requires_approval = false;
}

abbrev binding_of : String → ExecutionBinding String
binding_of revision = record {
  coordinate = "a/b";
  revision = revision;
  operation = operation;
  cancellable = true;
}

abbrev request_of : String → ExecutionRequest String
request_of name = record {
  execution_ref = "x";
  operation = name;
  arguments = [];
  task_id = "t";
  approval_ref = none;
  idempotency_key = none;
}

abbrev outcome : ExecutionResult String
outcome = record {
  capability_revision = "1";
  operation = "send";
  output = "done";
  provider = "p";
  portable_tokens = 3;
  audit_id = "1";
}

-- The service counts its calls in the world.
abbrev parts : Parts String ℕ
parts = record {
  resolve = λ q. pure (binding_of "1");
  pin_id_factory = λ q b. pure "pin";
  pin_revision = none;
  release_revision = none;
  cancel = none;
  service_execute = λ q s. (ok outcome, record s { world = s.world + 1 });
}

abbrev start : Wrapper ℕ
start = record { drain = registered; active_pin_ids = []; world = 0 }

-- The service runs under the pin, and the pin is gone afterwards.
executed :
    ((execute String ℕ texts parts (request_of "send") start).0 ≡ ok outcome)
    × ((execute String ℕ texts parts (request_of "send") start).1.drain.pins ≡ [])
    × ((execute String ℕ texts parts (request_of "send") start).1.active_pin_ids ≡ [])
    × ((execute String ℕ texts parts (request_of "send") start).1.world ≡ 1)
unfolding program
executed = (refl, refl, refl, refl)

mismatch :
    (execute String ℕ texts parts (request_of "erase") start).0
    ≡ raise (wrapper_error "execution_binding_mismatch")
unfolding program
mismatch = refl

-- A callback that pins another revision: the service is not called.
other_revision :
    execute String ℕ texts
      (record parts {
        pin_revision = some (λ c p. pure "2");
        release_revision = some (λ p. pure true);
      })
      (request_of "send")
      start
    ≡ (raise lifecycle_not_accepting, start)
unfolding program
other_revision = refl

-- A failure to release takes the place of the result.
release_fails :
    (execute String ℕ texts
      (record parts {
        pin_revision = some (λ c p. pure "1");
        release_revision = some (λ p. pure false);
      })
      (request_of "send")
      start).0
    ≡ raise (wrapper_error "execution_revision_release_failed")
unfolding program
release_fails = refl

one_callback :
    create_service String ℕ (record parts { cancel = none; pin_revision = some (λ c p. pure "1") })
    ≡ raise value_error
unfolding program
one_callback = refl

texts-IsStable : IsStable texts
unfolding identifier
texts-IsStable id p h = ground arith

served : (request : ExecutionRequest String) → Along Leaves (parts.service_execute request)
served request s h = record {
  sound = record { is_dict = h.is_dict; keyed = h.keyed };
  pins = λ q n. n;
  active = λ k n. n;
}

execute-Leaves_example : Leaves start (execute String ℕ texts parts (request_of "send") start).1
execute-Leaves_example = execute-Leaves texts texts-IsStable parts served (request_of "send") start

-- A drain past its deadline with one pin.
abbrev draining_one : Wrapper ℕ
draining_one = record start {
  drain =
      (begin_drain texts "a/b" (some "1") "update" (admit texts "a/b" "1" "p" true registered).1).1;
}

abbrev cancelling : Parts String ℕ
cancelling = record parts { cancel = some (λ target. pure true) }

abbrev one_cancelled : CancellationDispatch String ℕ texts cancelling
one_cancelled = record {
  progress = record {
    outcome = cancel_requested;
    snapshot = record {
      coordinate = "a/b";
      revision = some "1";
      state = draining;
      in_flight = 1;
      cancellable = 1;
      cancellation_requested = 1;
    };
    cancellation_requests = "p" ∷ [];
  };
  attempted = 1;
  succeeded = 1;
  failed = 0;
}

advanced :
    (advance_drain String ℕ texts cancelling "a/b" (some "1") 5 6 draining_one).0 ≡ ok one_cancelled
unfolding program
advanced = refl

advance_drain-dispatched_example :
    advance_drain String ℕ texts cancelling "a/b" (some "1") 5 6 draining_one
    ≡ dispatched String ℕ texts cancelling draining_one
        (advance texts "a/b" (some "1") 5 6 draining_one.drain)
advance_drain-dispatched_example =
    advance_drain-dispatched String ℕ texts cancelling "a/b" (some "1") 5 6 draining_one
