-- ===== src/Idempotency/Waiting.antt =====
-- src/capabilityhub/idempotency.py: that `wait` ends, and with what.
use capabilityhub.Base.{
  ℕ, zero, suc, ◌+◌, ◌≤◌, ◌<◌, String, ◌≡◌, ◌≢◌, refl, sym, ◌∙◌, subst, inl, inr, true, false, none,
  some, arith, Bool-cases, Option-cases, ite, text_dec, ℕ_discrete,
}
use capabilityhub.Dict.{text_key, get}
use capabilityhub.Idempotency.{
  Row, IdempotencyStatus, in_progress, complete_status, uncertain_status, conflict_status,
  is_in_progress, IdempotencySlot, IdempotencyRecord, Table, Settings, Library, record_of,
  conflicting, poll, wait_loop, wait,
}

before : (a b : ℕ) → a + 1 ≤ b → a ≤ b
before a b h = omega arith

beyond : (a i : ℕ) → a ≤ i → ¬ (i ≡ a) → a + 1 ≤ i
beyond a i h n = omega arith

progress_status : (x : IdempotencyStatus) → is_in_progress x ≡ true → x ≡ in_progress
progress_status in_progress e = refl
progress_status complete_status e = absurd (cc)
progress_status uncertain_status e = absurd (cc)
progress_status conflict_status e = absurd (cc)

settled_status : (x : IdempotencyStatus) → is_in_progress x ≡ false → x ≢ in_progress
settled_status x e same = absurd (cc)

module _ {Json : Type 0} (lib : Library Json) (s : Settings) where
  -- A round at the deadline returns.
  poll_late :
      (slot : IdempotencySlot) (digest : String) (deadline now : ℕ) (d : Table)
      → deadline ≤ now
      → (r : IdempotencyRecord Json) × (poll lib s slot digest deadline now d ≡ some r)
  unfolding poll
  poll_late slot digest deadline now d late = elim (Option-cases (get (lib.slot_digest slot) d)) [
    | inl gone ↦ (conflicting lib s, rw (gone, poll) refl)
    | inr (row, there) ↦ elim (Bool-cases (ite (text_dec row.arguments_digest digest) false true)) [
      | inl differs ↦ (conflicting lib s, rw (there, differs, poll) refl)
      | inr same ↦ (record_of lib s row, ground (arith))
    ]
  ]

  module _ (slot : IdempotencySlot) (digest : String) (deadline : ℕ) (clock : ℕ → ℕ)
      (tables : ℕ → Table) where
    -- The rows of this round let `wait` go on: the row is there, of this digest and in progress, and
    -- the deadline has not come.
    pub record Waits (i : ℕ) : Type 0 where
      pub row : Row
      pub present : get (lib.slot_digest slot) (tables i) ≡ some row
      pub intended : row.arguments_digest ≡ digest
      pub running : row.status ≡ in_progress
      pub early : clock i < deadline

    -- What ends `wait` in a round, and the record to return then.
    pub data Ends (i : ℕ) (r : IdempotencyRecord Json) : Type 0 where
      gone : get (lib.slot_digest slot) (tables i) ≡ none → r ≡ conflicting lib s → Ends i r
      conflicts :
          (row : Row)
          → get (lib.slot_digest slot) (tables i) ≡ some row
          → row.arguments_digest ≢ digest
          → r ≡ conflicting lib s
          → Ends i r
      settled :
          (row : Row)
          → get (lib.slot_digest slot) (tables i) ≡ some row
          → row.arguments_digest ≡ digest
          → row.status ≢ in_progress
          → r ≡ record_of lib s row
          → Ends i r
      timed_out :
          (row : Row)
          → get (lib.slot_digest slot) (tables i) ≡ some row
          → row.arguments_digest ≡ digest
          → row.status ≡ in_progress
          → deadline ≤ clock i
          → r ≡ record_of lib s row
          → Ends i r

    -- A round that goes on, and one that returns.
    poll-Waits : (i : ℕ) → poll lib s slot digest deadline (clock i) (tables i) ≡ none → Waits i
    unfolding poll
    poll-Waits i e = elim (Option-cases (get (lib.slot_digest slot) (tables i))) [
      | inl missing ↦ absurd (ground arith)
      | inr (row, there) ↦ elim (text_dec row.arguments_digest digest) [
        | no other ↦ absurd (ground arith)
        | yes same ↦ elim (Bool-cases (is_in_progress row.status)) [
          | inr over ↦ absurd (ground arith)
          | inl runs ↦ record {
            row = row;
            present = there;
            intended = same;
            running = progress_status row.status runs;
            early = ground arith;
          }
        ]
      ]
    ]

    poll-Ends :
        (i : ℕ) (r : IdempotencyRecord Json)
        → poll lib s slot digest deadline (clock i) (tables i) ≡ some r
        → Ends i r
    unfolding poll
    poll-Ends i r e = elim (Option-cases (get (lib.slot_digest slot) (tables i))) [
      | inl missing ↦ gone missing (ground arith)
      | inr (row, there) ↦ elim (text_dec row.arguments_digest digest) [
        | no other ↦ conflicts row there other (ground arith)
        | yes same ↦ elim (Bool-cases (is_in_progress row.status)) [
          | inr over ↦ settled row there same (settled_status row.status over) (ground arith)
          | inl runs ↦
              timed_out row there same (progress_status row.status runs) (ground arith)
                (ground arith)
        ]
      ]
    ]

    -- The record is what the first round gives in which something ends `wait`.
    pub record Answered (first : ℕ) (r : IdempotencyRecord Json) : Type 0 where
      pub round : ℕ
      pub from_first : first ≤ round
      pub ended : Ends round r
      pub waited : (i : ℕ) → first ≤ i → i < round → Waits i

    not_yet :
        (first n : ℕ)
        → first ≤ n
        → deadline ≤ clock n
        → poll lib s slot digest deadline (clock first) (tables first) ≡ none
        → first + 1 ≤ n
    not_yet first n h late on = elim (ℕ_discrete first n) [
      | yes same ↦
          let (r, e) =
            poll_late slot digest deadline (clock first) (tables first)
              (subst (λ x. deadline ≤ clock x) (sym same) late) in
          absurd (cc (sym on ∙ e))
      | no other ↦ omega arith
    ]

    wait_loop-Answered :
        (fuel first n : ℕ)
        → first ≤ n
        → n < first + fuel
        → deadline ≤ clock n
        → (r : IdempotencyRecord Json) × (wait_loop lib s fuel slot digest deadline clock tables
              first
            ≡ some r)
          × Answered first r
    unfolding wait_loop
    wait_loop-Answered zero first n h k late = absurd (omega arith)
    wait_loop-Answered (suc fuel) first n h k late =
        elim (Option-cases (poll lib s slot digest deadline (clock first) (tables first))) [
          | inr (r, e) ↦ (
            r,
            rw (e, wait_loop) refl,
            record {
              round = first;
              from_first = omega arith;
              ended = poll-Ends first r e;
              waited = λ i a b. absurd (omega arith);
            },
          )
          | inl on ↦
              let further : first + 1 ≤ n = not_yet first n h late on in
              let (r, e, a) = wait_loop-Answered fuel (first + 1) n further (omega arith) late in
              (
                r,
                rw (on, wait_loop) e,
                record {
                  round = a.round;
                  from_first = before first a.round a.from_first;
                  ended = a.ended;
                  waited = λ i b c. elim (ℕ_discrete i first) [
                    | yes same ↦ subst Waits (sym same) (poll-Waits first on)
                    | no later ↦ a.waited i (beyond first i b later) c
                  ];
                },
              )
        ]

  -- wait ends: where the clock has reached the deadline at some round, one more round than that many
  -- is enough. Until the round in which it returns, the row was there, of the digest and in progress,
  -- before the deadline; and it returns a conflict if the row is gone or of another digest, and else
  -- what the row holds, because that is no longer in progress or the deadline has come.
  pub wait-Answered :
      (slot : IdempotencySlot) (digest : String) (timeout started : ℕ) (clock : ℕ → ℕ)
      (tables : ℕ → Table) (n : ℕ)
      → started + timeout ≤ clock n
      → (r : IdempotencyRecord Json) × (wait lib s (n + 1) slot digest timeout started clock tables
          ≡ some r)
        × Answered slot digest (started + timeout) clock tables 0 r
  unfolding wait
  wait-Answered slot digest timeout started clock tables n late =
      wait_loop-Answered slot digest (started + timeout) clock tables (n + 1) 0 n (omega arith)
        (omega arith) late
