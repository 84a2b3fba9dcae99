-- ===== src/Approvals/Scoped/Tests.antt =====
-- src/capabilityhub/approval_store.py: approvals of two scopes, and the theorem at them.
use capabilityhub.Base.{String, ◌≡◌, ◌≢◌, refl, some, [], text_dec, codes_before, append, text_ne}
use capabilityhub.Dict.{pair_dec}
use capabilityhub.Result.{ok, raise}
use capabilityhub.Approvals.{
  approved, consumed, ApprovalIntent, approval_not_found, approval_already_consumed,
}
use capabilityhub.Approvals.Scoped.{
  TenantScope, ScopedTable, scoped_record, expire_row, decide_row, consume_row, select_row,
  insert_row, place_row, Digests, require_matching_scope, require_pending, require_approved,
  scope_rows, digests, read_row, get_scoped, request_row, request_scoped, decide_key, decide_scoped,
  decide_as, require_intent, consume_key, consume_scoped, list_scoped, approve_as, deny_scoped,
}
use capabilityhub.Approvals.Scoped.Isolation.{here, next, denies}
use capabilityhub.Approvals.Scoped.Unseen.{Calls-unseen}

program : Unit {0}
unfolding text_dec pair_dec codes_before scoped_record expire_row decide_row consume_row select_row
    insert_row place_row require_matching_scope require_pending require_approved scope_rows digests
    read_row get_scoped request_row request_scoped decide_key decide_scoped decide_as require_intent
    consume_key consume_scoped list_scoped
program = tt

abbrev library : Digests
library = record {
  of_scope = λ s. s.principal;
  of_approval = λ s k. append s k;
  fingerprint = λ i. i.operation;
}

abbrev scope_of : String → TenantScope
scope_of principal = record { tenant = "t"; principal = principal; session = "s"; task = "k" }

abbrev intent_of : String → ApprovalIntent
intent_of principal = record {
  revision = "r";
  operation = "send";
  arguments_digest = "d";
  tenant_id = "t";
  principal_id = principal;
  session_id = "s";
  task_id = "k";
  side_effect = "write";
  policy_revision = "1";
}

abbrev asked : ScopedTable
asked = (request_scoped library (scope_of "ann") (intent_of "ann") 10 (some "a") "x" 5 []).1

-- Nothing keeps a requester from deciding its own request.
abbrev self_approved : ScopedTable
self_approved = (approve_as library (scope_of "ann") (scope_of "ann") "a" 6 asked).1

abbrev used : ScopedTable
used = (consume_scoped library (scope_of "ann") "a" (intent_of "ann") 7 self_approved).1

self_approval_used :
    (get_scoped library (scope_of "ann") "a" 7 used).0
    ≡ ok (record {
      approval_id = "a";
      intent = intent_of "ann";
      status = consumed;
      created_at = 5;
      expires_at = 15;
      decided_at = some 6;
      decided_by = some "ann";
      consumed_at = some 7;
    })
unfolding program
self_approval_used = refl

used_twice :
    (consume_scoped library (scope_of "ann") "a" (intent_of "ann") 8 used).0
    ≡ raise approval_already_consumed
unfolding program
used_twice = refl

hidden : (get_scoped library (scope_of "bob") "a" 7 used).0 ≡ raise approval_not_found
unfolding program
hidden = refl

other_scope :
    (consume_scoped library (scope_of "bob") "a" (intent_of "ann") 7 self_approved).0
    ≡ raise approval_not_found
unfolding program
other_scope = refl

listed : (list_scoped library (scope_of "bob") (some approved) 5 7 self_approved).0 ≡ ok []
unfolding program
listed = refl

bob_ann : ◌≢◌ {A = String} "bob" "ann"
bob_ann = text_ne "bob" "ann" refl

Calls-unseen_example :
    (get_scoped library
      (scope_of "bob")
      "a"
      9
      (deny_scoped library (scope_of "ann") "a" "boss" 8 asked).1).0
    ≡ (get_scoped library (scope_of "bob") "a" 9 asked).0
Calls-unseen_example =
    Calls-unseen library (scope_of "ann") (scope_of "bob") bob_ann asked
      (deny_scoped library (scope_of "ann") "a" "boss" 8 asked).1 (next here (denies "a" "boss" 8))
      "a" 9
