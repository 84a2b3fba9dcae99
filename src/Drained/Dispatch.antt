-- ===== src/Drained/Dispatch.antt =====
-- src/capabilityhub/drained_service.py: what `advance_drain` does with the requests to cancel.
use capabilityhub.Base.{
  ℕ, suc, ◌+◌, String, ◌≡◌, refl, sym, ap, ◌∙◌, Bool, true, false, Option, none, some, List, [],
  ◌∷◌, arith, length,
}
use capabilityhub.Result.{Result, ok, raise}
use capabilityhub.Exec.{Exec, pure, ◌>>=◌}
use capabilityhub.Exec.Steps.{bind_ok}
use capabilityhub.Draining.{Texts, Controller, DrainProgress, advance}
use capabilityhub.Drained.{
  Wrapper, in_world, Parts, count_outcome, cancelled, cancel_all, CancellationDispatch,
  advance_drain,
}

-- What the callback answers to each target, one after the other, and the state that it leaves.
abbrev pub answers :
    {W : Type 0} → (String → Exec W Bool) → List String → W → List (Result Bool) × W
answers f [] w = ([], w)
answers f (target ∷ targets) w =
    ((f target w).0 ∷ (answers f targets (f target w).1).0, (answers f targets (f target w).1).1)

abbrev pub successes : List (Result Bool) → ℕ
successes [] = 0
successes (ok true ∷ rs) = suc (successes rs)
successes (_ ∷ rs) = successes rs

abbrev pub failures : List (Result Bool) → ℕ
failures [] = 0
failures (ok true ∷ rs) = failures rs
failures (_ ∷ rs) = suc (failures rs)

-- The successes, the failures and the state, where the callback is tried on each target, and a
-- target fails if there is no callback.
abbrev pub tally : {W : Type 0} → Option (String → Exec W Bool) → List String → W → (ℕ × ℕ) × W
tally none targets w = ((0, length targets), w)
tally (some f) targets w =
    ((successes (answers f targets w).0, failures (answers f targets w).0), (answers f targets w).1)

successes_failures : (rs : List (Result Bool)) → successes rs + failures rs ≡ length rs
successes_failures [] = refl
successes_failures (ok true ∷ rs) = omega (arith, successes_failures rs)
successes_failures (ok false ∷ rs) = omega (arith, successes_failures rs)
successes_failures (raise e ∷ rs) = omega (arith, successes_failures rs)

length-answers :
    {W : Type 0} (f : String → Exec W Bool) (targets : List String) (w : W)
    → length (answers f targets w).0 ≡ length targets
length-answers f [] w = refl
length-answers f (target ∷ targets) w = ap suc (length-answers f targets (f target w).1)

-- Each target succeeds or fails.
tally_total :
    {W : Type 0} (callback : Option (String → Exec W Bool)) (targets : List String) (w : W)
    → length targets ≡ (tally callback targets w).0.0 + (tally callback targets w).0.1
tally_total none targets w = omega arith
tally_total (some f) targets w =
    sym (successes_failures (answers f targets w).0 ∙ length-answers f targets w)

is_success : Result Bool → Bool
is_success (ok b) = b
is_success (raise e) = false

-- What one target adds, and the state after it.
first_answer : {W : Type 0} → Option (String → Exec W Bool) → String → W → Bool × W
first_answer none target w = (false, w)
first_answer (some f) target w = (is_success (f target w).0, (f target w).1)

counted_first :
    (r : Result Bool) (rs : List (Result Bool))
    → count_outcome (is_success r) (successes rs, failures rs)
      ≡ (successes (r ∷ rs), failures (r ∷ rs))
unfolding is_success
counted_first (ok true) rs = ap (λ n. (n, failures rs)) (omega arith)
counted_first (ok false) rs = ap (λ n. (successes rs, n)) (omega arith)
counted_first (raise e) rs = ap (λ n. (successes rs, n)) (omega arith)

tally_nothing :
    {W : Type 0} (callback : Option (String → Exec W Bool)) (w : W)
    → tally callback [] w ≡ ((0, 0), w)
tally_nothing none w = refl
tally_nothing (some f) w = refl

tally_first :
    {W : Type 0} (callback : Option (String → Exec W Bool)) (target : String)
    (targets : List String) (w : W)
    → (
      count_outcome
          (first_answer callback target w).0
          (tally callback targets (first_answer callback target w).1).0,
      (tally callback targets (first_answer callback target w).1).1,
    )
      ≡ tally callback (target ∷ targets) w
unfolding first_answer
tally_first none target targets w = ap (λ n. ((0, n), w)) (omega arith)
tally_first (some f) target targets w =
    ap (λ c. (c, (answers f targets (f target w).1).1))
      (counted_first (f target w).0 (answers f targets (f target w).1).0)

module _ (Json W : Type 0) (lib : Texts) (parts : Parts Json W) where
  cancelled-first_answer :
      (callback : Option (String → Exec W Bool)) (target : String) (s : Wrapper W)
      → cancelled Json W lib parts callback target s ≡ (
        ok (first_answer callback target s.world).0,
        record s { world = (first_answer callback target s.world).1 },
      )
  unfolding cancelled first_answer is_success
  cancelled-first_answer none target s = refl
  cancelled-first_answer (some f) target s = by_result (f target s.world).0
    where
      answer : Result Bool → Result Bool × Wrapper W
      answer r =
          let t = (in_world (f target) s).1 in elim r [ ok c ↦ (ok c, t) | raise e ↦ (ok false, t) ]

      by_result :
          (r : Result Bool)
          → answer r ≡ (ok (is_success r), record s { world = (f target s.world).1 })
      by_result (ok c) = refl
      by_result (raise e) = refl

  cancel_all-tally :
      (targets : List String) (s : Wrapper W)
      → cancel_all Json W lib parts targets s ≡ (
        ok (tally parts.cancel targets s.world).0,
        record s { world = (tally parts.cancel targets s.world).1 },
      )
  unfolding cancel_all
  cancel_all-tally [] s =
      sym (ap (λ x. (ok x.0, record s { world = x.1 })) (tally_nothing parts.cancel s.world))
  cancel_all-tally (target ∷ targets) s =
      let (b, w) = first_answer parts.cancel target s.world in
      let t = record s { world = w } in
      bind_ok (cancelled Json W lib parts parts.cancel target)
        (λ done. cancel_all Json W lib parts targets >>= λ counts. pure (count_outcome done counts))
        s b t (cancelled-first_answer parts.cancel target s)
      ∙ bind_ok (cancel_all Json W lib parts targets) (λ counts. pure (count_outcome b counts)) t
          (tally parts.cancel targets w).0 (record s { world = (tally parts.cancel targets w).1 })
          (cancel_all-tally targets t)
      ∙ ap (λ x. (ok x.0, record s { world = x.1 }))
          (tally_first parts.cancel target targets s.world)

  -- What `advance_drain` makes of what the controller answers.
  abbrev pub dispatched :
      Wrapper W
      → Result DrainProgress × Controller
      → Result (CancellationDispatch Json W lib parts) × Wrapper W
  dispatched s (raise e, d) = (raise e, record s { drain = d })
  dispatched s (ok p, d) =
      let (counts, w) = tally parts.cancel p.cancellation_requests s.world in
      (
        ok (record {
          progress = p;
          attempted = counts.0 + counts.1;
          succeeded = counts.0;
          failed = counts.1;
        }),
        record s { drain = d; world = w },
      )

  -- advance_drain advances the controller. If that raises, so does it, and no callback is called. Else
  -- it tries the callback once on each request of the controller, in their order, also after one
  -- that fails; what it answers counts the requests that were cancelled and those that were not, all
  -- of them where there is no callback or it raises; and nothing else changes.
  pub advance_drain-dispatched :
      (coordinate : String) (revision : Option String) (deadline now : ℕ) (s : Wrapper W)
      → advance_drain Json W lib parts coordinate revision deadline now s
        ≡ dispatched s (advance lib coordinate revision deadline now s.drain)
  unfolding advance_drain
  advance_drain-dispatched coordinate revision deadline now s =
      by_result (advance lib coordinate revision deadline now s.drain)
    where
      dispatch : DrainProgress → ℕ → ℕ × ℕ → CancellationDispatch Json W lib parts
      dispatch q n counts = record {
        progress = q;
        attempted = n;
        succeeded = counts.0;
        failed = counts.1;
      }

      counted : DrainProgress → ℕ × ℕ → Exec (Wrapper W) (CancellationDispatch Json W lib parts)
      counted q counts = pure (dispatch q (length q.cancellation_requests) counts)

      finish : DrainProgress → Exec (Wrapper W) (CancellationDispatch Json W lib parts)
      finish q = cancel_all Json W lib parts q.cancellation_requests >>= counted q

      by_result :
          (r : Result DrainProgress × Controller)
          → ◌>>=◌ (λ _. (r.0, record s { drain = r.1 })) finish s ≡ dispatched s r
      by_result (raise e, d) = refl
      by_result (ok q, d) =
          let t = record s { drain = d } in
          let told = tally parts.cancel q.cancellation_requests s.world in
          bind_ok (cancel_all Json W lib parts q.cancellation_requests) (counted q) t told.0
            (record t { world = told.1 }) (cancel_all-tally q.cancellation_requests t)
          ∙ ap (λ n. (ok (dispatch q n told.0), record t { world = told.1 }))
              (tally_total parts.cancel q.cancellation_requests s.world)
