-- ===== src/Resilience/Tests.antt =====
-- src/capabilityhub/resilience.py: runs of the breaker and the executor, and the theorems at them.
use capabilityhub.Base.{
  ℕ, suc, ◌+◌, ◌<◌, ◌≤◌, ◌≡◌, ◌≢◌, refl, ◌↔◌, ◌⊎◌, inl, true, false, none, some, [], arith,
  text_dec, text_ne,
}
use capabilityhub.Dict.{get, text_key}
use capabilityhub.Errors.{CapabilityHubError, provider}
use capabilityhub.Models.{SideEffect}
use capabilityhub.Result.{Result, ok}
use Prim.Native.Nat.{zero}
use capabilityhub.Resilience.Retry.{
  not_applied, decide_retry, backoff_seconds, retry_category, has_key,
}
use capabilityhub.Resilience.Retry.Decisions.{decide_retry_iff}
use capabilityhub.Resilience.Circuit.{
  CircuitBreaker, CircuitEntry, CircuitPermit, closed, open_circuit, new_entry, create_breaker,
  acquire, record_success, record_failure, entry_of, evictable, acquire_entry, succeed_entry,
  fail_entry, open_entry,
}
use capabilityhub.Resilience.Circuit.Transitions.{
  new_entry-IsSound, acquire_entry_grants, transitions_bump, fail_times, fail_times_trips,
}
use capabilityhub.Resilience.Circuit.Registry.{IsValid, here, next, acquires, fails, Runs-IsValid}
use capabilityhub.Resilience.Circuit.Outstanding.{
  stays, goes, acquires_other, succeeds_other, acquire-Away,
}
use capabilityhub.Resilience.Executor.{
  returned, failed, Trace, Call, execute, attempt_loop, attempt, handle, handle_error,
  acquire_permit, call_provider,
}
use capabilityhub.Resilience.Executor.Attempts.{Looped, execute-Looped, execute_at_most_once}

program : Unit {0}
unfolding create_breaker acquire record_success record_failure entry_of evictable acquire_entry
    succeed_entry fail_entry open_entry text_dec decide_retry backoff_seconds execute attempt_loop
    attempt handle handle_error acquire_permit call_provider
program = tt

-- One failure opens; one circuit at a time.
abbrev breaker : CircuitBreaker
breaker = record { failure_threshold = 1; recovery_timeout = 0; max_entries = 1; entries = [] }

abbrev after : {A : Type 0} → Result A × CircuitBreaker → CircuitBreaker
after p = p.1

abbrev permit_a : CircuitPermit
permit_a = record { provider_key = "a"; generation = 0; half_open_probe = false }

abbrev probe_a : CircuitPermit
probe_a = record { provider_key = "a"; generation = 2; half_open_probe = true }

abbrev permit_b : CircuitPermit
permit_b = record { provider_key = "b"; generation = 0; half_open_probe = false }

-- Two calls of "a" run; one fails and opens the circuit.
abbrev opened : CircuitBreaker
opened = record_failure permit_a true 5 (after (acquire "a" 4 (after (acquire "a" 3 breaker))))

opened_entry :
    get "a" opened.entries
    ≡ some (record {
      state = open_circuit;
      failures = 1;
      opened_at = some 5;
      probe_in_flight = false;
      in_flight = 0;
      generation = 1;
    })
unfolding program
opened_entry = refl

-- The probe closes it, "b" evicts it, and "a" comes back as a new circuit.
abbrev returned_a : CircuitBreaker
returned_a = after (
    acquire "a" 9 (
      record_success permit_b
        (after (acquire "b" 8 (record_success probe_a (after (acquire "a" 7 opened)))))))

-- The second call of the first circuit now fails: its permit has generation 0 again, and it opens
-- the new circuit, whose own call has not failed.
old_permit_counts :
    (get "a" (record_failure permit_a true 10 returned_a).entries)
    ≡ some (record {
      state = open_circuit;
      failures = 1;
      opened_at = some 10;
      probe_in_flight = false;
      in_flight = 0;
      generation = 1;
    })
unfolding program
old_permit_counts = refl

acquire_entry_grants_example :
    ((new_entry.state ≡ closed) × (permit_a.half_open_probe ≡ false))
    ⊎ ((new_entry.state ≡ open_circuit)
        × (permit_a.half_open_probe ≡ true)
        × ((t : ℕ) → new_entry.opened_at ≡ some t → t + 30 ≤ 3))
unfolding program
acquire_entry_grants_example =
    acquire_entry_grants 1 30 3 "a" new_entry permit_a (new_entry-IsSound 1 (omega arith)) refl

transitions_bump_example :
    ((acquire_entry 30 3 "a" new_entry).0.state ≢ new_entry.state
      → (acquire_entry 30 3 "a" new_entry).0.generation ≡ new_entry.generation + 1)
    × ((succeed_entry permit_a new_entry).state ≢ new_entry.state
        → (succeed_entry permit_a new_entry).generation ≡ new_entry.generation + 1)
    × ((fail_entry 1 3 true permit_a new_entry).state ≢ new_entry.state
        → (fail_entry 1 3 true permit_a new_entry).generation ≡ new_entry.generation + 1)
transitions_bump_example = transitions_bump 1 30 3 true "a" permit_a new_entry

fail_times_trips_example :
    (new_entry.failures + 2 < 3
      → ((fail_times 3 7 permit_a 2 new_entry).state ≡ closed)
        × ((fail_times 3 7 permit_a 2 new_entry).failures ≡ new_entry.failures + 2))
    × (new_entry.failures + suc 2 ≡ 3
        → (fail_times 3 7 permit_a (suc 2) new_entry).state ≡ open_circuit)
fail_times_trips_example = fail_times_trips 3 7 2 permit_a new_entry refl refl

Runs-IsValid_example : IsValid opened
unfolding create_breaker
Runs-IsValid_example =
    Runs-IsValid 1 0 1 {a = breaker} refl
      (next (next (next here (acquires "a" 3)) (acquires "a" 4)) (fails permit_a true 5))

-- A call of "a" runs; "b" finds no room, and a permit of "b" settles nothing.
abbrev running : CircuitBreaker
running = after (acquire "a" 3 breaker)

acquire-Away_example :
    (e : CircuitEntry) × (get "a" running.entries ≡ some e)
    × (get "a" (record_success permit_b (after (acquire "b" 4 running))).entries ≡ some e)
    × (e.generation ≡ permit_a.generation)
    × (permit_a.provider_key ≡ "a")
unfolding program create_breaker text_dec
acquire-Away_example =
    acquire-Away "a" 3 breaker permit_a (Runs-IsValid 1 0 1 {a = breaker} refl here) refl (
      goes (goes stays (acquires_other "b" 4 (text_ne "a" "b" refl)))
        (succeeds_other permit_b (text_ne "a" "b" refl)))

abbrev refused : CapabilityHubError
refused = record { code = "cli_start_failed"; category = provider; retryable = true }

-- Fails once before it is applied, then returns 7.
abbrev one_failure : SideEffect → Call ℕ
one_failure effect = record {
  policy = record {
    max_attempts = 3;
    initial_backoff = 1;
    multiplier_num = 2;
    multiplier_den = 1;
    max_backoff = 20;
  };
  provider_key = "a";
  side_effect = effect;
  idempotency_key = none;
  clock = λ n. n;
  outcome = λ n. elim n [ zero ↦ failed refused | suc m ↦ returned 7 ];
  classify = λ e. some not_applied;
}

abbrev start : Trace
start = record { breaker = record breaker { failure_threshold = 5 }; readings = 0; calls = 0 }

retried : (execute (one_failure SideEffect.read) 100 start).0 ≡ ok 7
unfolding program
retried = refl

execute-Looped_example :
    Looped (one_failure SideEffect.read) 3 start (execute (one_failure SideEffect.read) 100 start)
execute-Looped_example = execute-Looped (one_failure SideEffect.read) 100 start (omega arith)

execute_at_most_once_example : (execute (one_failure SideEffect.irreversible) 100 start).1.calls ≤ 1
execute_at_most_once_example =
    execute_at_most_once (one_failure SideEffect.irreversible) 100 start (omega arith) (inl refl)

decide_retry_iff_example :
    ((decide_retry refused SideEffect.read none not_applied).allowed ≡ true) ↔ (
      (not_applied ≡ not_applied)
      × (retry_category refused.category ≡ true)
      × (refused.retryable ≡ true)
      × ((SideEffect.read ≡ SideEffect.none)
          ⊎ ((SideEffect.read ≡ SideEffect.read)
              ⊎ ((SideEffect.read ≡ SideEffect.reversible_write) × (has_key none ≡ true)))))
decide_retry_iff_example = decide_retry_iff refused SideEffect.read none not_applied
