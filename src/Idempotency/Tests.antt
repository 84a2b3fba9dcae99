-- ===== src/Idempotency/Tests.antt =====
-- src/capabilityhub/idempotency.py: a reservation, its completion and a wait, and the theorems at them.
use capabilityhub.Base.{◌+◌, String, ◌≡◌, refl, true, false, none, some, [], ◌∷◌, text_dec, arith}
use capabilityhub.Dict.{text_key}
use capabilityhub.Errors.{value_error}
use capabilityhub.Result.{ok, raise}
use capabilityhub.Models.Manifests.{ExecutionResult}
use capabilityhub.Idempotency.{
  in_progress, complete_status, uncertain_status, IdempotencySlot, IdempotencyRecord, result_fields,
  fields_result, encode_result, decode_result, Table, Settings, Library, settle_row, doubt_row,
  create_store, reserve, stored_result, complete, uncertain, poll, wait_loop, wait, conflicting,
}
use capabilityhub.Idempotency.Reserving.{here, next, doubts, reserve_once}
use capabilityhub.Idempotency.Replay.{reserve-complete}
use capabilityhub.Idempotency.Waiting.{Answered, wait-Answered}

program : Unit {0}
unfolding text_dec result_fields fields_result encode_result decode_result settle_row doubt_row
    create_store reserve stored_result complete uncertain poll wait_loop wait
program = tt

abbrev outcome : ExecutionResult String
outcome = record {
  capability_revision = "r";
  operation = "send";
  output = "done";
  provider = "p";
  portable_tokens = 3;
  audit_id = "1";
}

-- A library whose only object is that of the outcome.
abbrev library : Library String
library = record {
  slot_digest = λ slot. slot.0;
  print = λ d. "{}";
  load = λ s. some (result_fields outcome);
  byte_length = λ s. 2;
}

abbrev settings : Settings
settings = record { persist_results = true; result_ttl_seconds = 300; max_result_bytes = 1024 }

abbrev slot : IdempotencySlot
slot = ("a", "b", "c", "d", "e")

abbrev held : Table
held = (reserve library settings slot "x" 10 10 []).1

abbrev completed : Table
completed = complete library settings slot outcome 20 held

free : (reserve library settings slot "x" 10 10 []).0 ≡ none
unfolding program
free = refl

busy :
    (reserve library settings slot "x" 11 11 held).0
    ≡ some (record { arguments_digest = "x"; status = in_progress; result = none })
unfolding program
busy = refl

stale_again : (reserve library settings slot "x" 320 320 completed).0 ≡ none
unfolding program
stale_again = refl

recovered :
    create_store settings true 30 held
    ≡ ok (
        (
          "a",
          record {
            arguments_digest = "x";
            status = uncertain_status;
            result_json = none;
            updated_at = 30;
          },
        )
        ∷ [])
unfolding program
recovered = refl

short_life_refused :
    create_store (record settings { result_ttl_seconds = 0 }) false 30 held ≡ raise value_error
unfolding program
short_life_refused = refl

other_arguments :
    wait library settings 1 slot "y" 5 10 (λ i. 10) (λ i. held)
    ≡ some (conflicting library settings)
unfolding program
other_arguments = refl

reserve_once_example :
    (r : IdempotencyRecord String) × ((reserve library settings slot "y" 40 40
        (uncertain library settings slot 30 held)).0
      ≡ some r)
reserve_once_example =
    reserve_once library settings 10 slot "x" 10 10 [] free
      (uncertain library settings slot 30 held) (next here (doubts slot 30)) "y" 40 40 (omega arith)

reserve-complete_example :
    (reserve library settings slot "y" 30 30 (complete library settings slot outcome 20 held)).0
    ≡ some (record { arguments_digest = "x"; status = complete_status; result = some outcome })
reserve-complete_example =
    reserve-complete library settings slot "x" 10 10 [] free outcome refl refl (omega arith) 20 30
      30 "y" (omega arith)

wait-Answered_example :
    (r : IdempotencyRecord String) × (wait library settings 6 slot "x" 5 10
        (λ i. 10 + i)
        (λ i. held)
      ≡ some r)
    × Answered library settings slot "x" 15 (λ i. 10 + i) (λ i. held) 0 r
wait-Answered_example =
    wait-Answered library settings slot "x" 5 10 (λ i. 10 + i) (λ i. held) 5 (omega arith)
