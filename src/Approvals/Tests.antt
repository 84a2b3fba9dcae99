-- ===== src/Approvals/Tests.antt =====
-- src/capabilityhub/approval_store.py: a request, its approval and its use, and the theorems at them.
use capabilityhub.Base.{
  String, ◌≡◌, refl, ◌↔◌, false, none, some, [], text_dec, codes_before, arith,
}
use capabilityhub.Dict.{text_key, get}
use capabilityhub.Errors.{Exc, value_error}
use capabilityhub.Result.{ok, raise}
use capabilityhub.Approvals.{
  approved, consumed, ApprovalIntent, ApprovalRecord, create_intent, pending_record, expire_record,
  decide_record, consume_record, Table, expire_one, expire_all, select_one, insert_record,
  get_record, request, check_pending, decide, approve, deny, check_approved, check_intent, consume,
  insert_ordered, select_ordered, list_records, approval_expired, approval_already_consumed,
  approval_intent_mismatch, approval_not_approved, is_empty_text,
}
use capabilityhub.Approvals.Lifecycle.{Calls, here, next, denies}
use capabilityhub.Approvals.Settling.{commit, settle, decide-settle}
use capabilityhub.Approvals.Consuming.{redeem, consume-redeem}
use capabilityhub.Approvals.Once.{Usable, consume_iff, consume_once}
use capabilityhub.Approvals.Flow.{request-approve-consume}

program : Unit {0}
unfolding text_dec codes_before create_intent expire_record decide_record consume_record expire_one
    expire_all select_one insert_record get_record request check_pending decide check_approved
    check_intent consume insert_ordered select_ordered list_records
program = tt

abbrev intent_of : String → ApprovalIntent
intent_of operation = record {
  revision = "r";
  operation = operation;
  arguments_digest = "0123456789abcdef0123456789abcdef0123456789abcdef0123456789abcdef";
  tenant_id = "t";
  principal_id = "p";
  session_id = "s";
  task_id = "k";
  side_effect = "write";
  policy_revision = "1";
}

abbrev fingerprint : ApprovalIntent → String
fingerprint i = i.operation

intent_accepted : create_intent (intent_of "send") ≡ ok (intent_of "send")
unfolding program
intent_accepted = refl

upper_case_digest_refused :
    create_intent (record (intent_of "send") { arguments_digest = "ABC" }) ≡ raise value_error
unfolding program
upper_case_digest_refused = refl

abbrev asked : Table
asked = (request (intent_of "send") 10 (some "a") "x" 5 []).1

abbrev permitted : Table
permitted = (approve "a" "boss" 6 asked).1

abbrev used : Table
used = (consume fingerprint "a" (intent_of "send") 7 permitted).1

abbrev record_used : ApprovalRecord
record_used = record (pending_record "a" (intent_of "send") 5 10) {
  status = consumed;
  decided_at = some 6;
  decided_by = some "boss";
  consumed_at = some 7;
}

used_once : (consume fingerprint "a" (intent_of "send") 7 permitted).0 ≡ ok record_used
unfolding program
used_once = refl

used_twice : (consume fingerprint "a" (intent_of "send") 8 used).0 ≡ raise approval_already_consumed
unfolding program
used_twice = refl

other_intent :
    (consume fingerprint "a" (intent_of "erase") 7 permitted).0 ≡ raise approval_intent_mismatch
unfolding program
other_intent = refl

too_early : (consume fingerprint "a" (intent_of "send") 7 asked).0 ≡ raise approval_not_approved
unfolding program
too_early = refl

-- The expiry that a refused call has noticed is rolled back with it.
too_late :
    (consume fingerprint "a" (intent_of "send") 15 permitted) ≡ (raise approval_expired, permitted)
unfolding program
too_late = refl

not_decided_twice : (deny "a" "boss" 7 permitted).1 ≡ permitted
unfolding program
not_decided_twice = refl

listed : (list_records (some approved) 5 20 permitted).0 ≡ ok []
unfolding program
listed = refl

limit_refused : list_records none 501 7 permitted ≡ (raise value_error, permitted)
unfolding program
limit_refused = refl

later-Calls : Calls fingerprint used (deny "a" "boss" 9 used).1
later-Calls = next here (denies "a" "boss" 9)

consume_once_example :
    (x : Exc) × ((consume fingerprint "a" (intent_of "send") 10 (deny "a" "boss" 9 used).1).0
      ≡ raise x)
consume_once_example =
    consume_once fingerprint "a" (intent_of "send") 7 permitted record_used used_once
      (deny "a" "boss" 9 used).1 later-Calls (intent_of "send") 10

consume-redeem_example :
    consume fingerprint "a" (intent_of "send") 7 permitted
    ≡ commit "a" (redeem fingerprint (intent_of "send") 7 (get "a" permitted)) permitted
consume-redeem_example = consume-redeem fingerprint "a" (intent_of "send") 7 permitted

consume_iff_example :
    ((r : ApprovalRecord) × ((consume fingerprint "a" (intent_of "send") 7 permitted).0 ≡ ok r)) ↔ (
      (s : ApprovalRecord) × (get "a" permitted ≡ some s)
      × Usable fingerprint (intent_of "send") 7 s)
consume_iff_example = consume_iff fingerprint "a" (intent_of "send") 7 permitted

boss_named : is_empty_text "boss" ≡ false
unfolding program
boss_named = refl

identifier_named : is_empty_text "a" ≡ false
unfolding program
identifier_named = refl

decide-settle_example :
    decide "a" approved "boss" 6 asked ≡ commit "a" (settle approved 6 "boss" (get "a" asked)) asked
decide-settle_example = decide-settle "a" approved "boss" 6 asked boss_named

request-approve-consume_example :
    let p = pending_record "a" (intent_of "send") 5 10 in
    let a = record p { status = approved; decided_at = some 6; decided_by = some "boss" } in
    let requested = request (intent_of "send") 10 (some "a") "x" 5 [] in
    let permitted = approve "a" "boss" 6 requested.1 in
    (requested.0 ≡ ok p)
    × (permitted.0 ≡ ok a)
    × ((consume fingerprint "a" (intent_of "send") 7 permitted.1).0
        ≡ ok (record a { status = consumed; consumed_at = some 7 }))
request-approve-consume_example =
    request-approve-consume fingerprint (intent_of "send") 10 "a" "x" "boss" 5 6 7 [] (omega arith)
      identifier_named boss_named refl (omega arith) (omega arith)
