-- ===== src/Draining/Graceful.antt =====
-- src/capabilityhub/draining.py: what the methods other than `force_retire` do to the pins' revisions.
use capabilityhub.Base.{
  ℕ, String, ◌≡◌, refl, sym, subst, inl, inr, Bool, true, false, not, Option, none, some, List, [],
  ◌∷◌, arith, Option-cases, Bool-cases, if◌then◌else◌, ◌==◌, length, ltb, ◌&&◌, All, All-map,
}
use capabilityhub.Dict.{pair_key, Dict, text_key, get, remove}
use capabilityhub.Result.{Result, ok, raise}
use capabilityhub.Exec.{Exec, pure, ◌>>=◌, ◌>>◌}
use capabilityhub.Draining.{
  LifecycleState, accepting, draining, retired, AdmissionPin, RevisionKey, Controller, Texts,
  set_coordinate, for_each, retire_revision, maybe_retire_coordinate, begin_revision_drain,
  retire_draining, close_coordinate, retire_target, release_pin, start_coordinate_drain,
  drain_revisions, drain_coordinate, drain_revision, advance_empty, admit_pin,
  request_cancellations, target_snapshot, is_target, is_draining, is_retired, pin_count,
  coordinate_revisions, cancel_loop, target_pins, LifecycleSnapshot, text_is, snapshot_of,
  make_snapshot, record_event, progress, DrainProgress, retired_outcome, cancel_requested,
  advance_target, release_known, register_revision, drain_target,
}
use capabilityhub.Draining.Outcomes.{
  retire_revision_outcome, close_coordinate_outcome, admit_pin_outcome,
}
use capabilityhub.Draining.Pins.{
  Each, put-Each, remove-Each, target_pins-Each, target_pins-empty, cancel_loop-Each, Live,
}
use capabilityhub.Draining.Quiet.{
  IsQuiet, IsFree, Keeps, then_Keeps, for_each-Keeps, target_snapshot_unmoved,
  target_snapshot-Keeps, Same-IsFree, retire_empty-IsQuiet, maybe_retire_coordinate-IsQuiet,
  begin_revision_drain-IsQuiet, start_coordinate_drain-IsQuiet, register_new-IsQuiet,
}

module _ (P : Controller → Type 0) where
  -- A first action whose end state is known.
  bind_at :
      {A B : Type 0} (m : Exec Controller A) (f : A → Exec Controller B) (d : Controller)
      → P (m d).1
      → ((a : A) → Keeps P (f a))
      → P d
      → P ((m >>= f) d).1
  bind_at m f d h rest p = then_Keeps P (λ _. m d) f (λ _ _. h) rest d p

  if_at :
      {A : Type 0} (c : Bool) (m n : Exec Controller A) (d : Controller)
      → (c ≡ true → P (m d).1)
      → (c ≡ false → P (n d).1)
      → P ((if c then m else n) d).1
  if_at true m n d h k = h refl
  if_at false m n d h k = k refl

All-every : {A : Type 0} (P : A → Type 0) (xs : List A) → ((x : A) → P x) → All P xs
All-every P [] f = tt
All-every P (x ∷ xs) f = (f x, All-every P xs f)

-- The revisions of a coordinate are its own.
coordinate_revisions-All :
    (c : String) (d : Dict RevisionKey LifecycleState)
    → All (λ p. text_is p.0.0 c ≡ true) (coordinate_revisions c d)
unfolding coordinate_revisions
coordinate_revisions-All c [] = tt
coordinate_revisions-All c ((key, state) ∷ d) = elim (Bool-cases (text_is key.0 c)) [
  | inl own ↦ rw own (own, coordinate_revisions-All c d)
  | inr other ↦ rw other (coordinate_revisions-All c d)
]

-- A pin of a revision is a pin of its coordinate.
free_revision :
    (c : String) (key : RevisionKey) (d : Dict String AdmissionPin)
    → text_is key.0 c ≡ true
    → Each (λ pin. is_target c none pin ≡ false) d
    → Each (λ pin. is_target key.0 (some key.1) pin ≡ false) d
free_revision c key d own free =
    All-map (λ x. is_target c none x.1 ≡ false) (λ x. is_target key.0 (some key.1) x.1 ≡ false) d
      (λ x miss. not_own x.1 miss) free
  where
    not_own :
        (pin : AdmissionPin)
        → is_target c none pin ≡ false
        → is_target key.0 (some key.1) pin ≡ false
    not_own pin miss = ground arith

module _ (lib : Texts) where
  retire_draining-IsFree :
      (c reason : String) (p : RevisionKey × LifecycleState)
      → text_is p.0.0 c ≡ true
      → Keeps (IsFree c) (retire_draining lib false reason p)
  unfolding retire_draining
  retire_draining-IsFree c reason (key, draining) own d (q, f) = (
    retire_empty-IsQuiet lib false reason key d (free_revision c key d.pins own f) q,
    elim (retire_revision_outcome lib reason key d false) [
      | inl stays ↦ subst (λ x. Each (λ pin. is_target c none pin ≡ false) x.pins) (sym stays) f
      | inr h ↦ subst (Each (λ pin. is_target c none pin ≡ false)) (sym h.pins) f
    ],
  )
  retire_draining-IsFree c reason (key, accepting) own d f = f
  retire_draining-IsFree c reason (key, retired) own d f = f

  close_coordinate-IsFree :
      (reason c : String) → Keeps (IsFree c) (close_coordinate lib false reason c)
  close_coordinate-IsFree reason c d f = elim (close_coordinate_outcome lib c d false reason) [
    | inl stays ↦ subst (IsFree c) (sym stays) f
    | inr h ↦ Same-IsFree c (set_coordinate c retired d) _ h f
  ]

  retire_target-IsQuiet :
      (c : String) (r : Option String) (reason : String) (d : Controller)
      → length (target_pins c r d.pins) ≡ 0
      → IsQuiet d
      → IsQuiet (retire_target lib c r reason false d).1
  unfolding retire_target
  retire_target-IsQuiet c none reason d empty q =
      (then_Keeps (IsFree c)
        (for_each (retire_draining lib false reason) (coordinate_revisions c d.revisions))
        (λ _. close_coordinate lib false reason c)
        (for_each-Keeps (IsFree c) (retire_draining lib false reason)
          (coordinate_revisions c d.revisions)
          (All-map (λ p. text_is p.0.0 c ≡ true)
            (λ p. Keeps (IsFree c) (retire_draining lib false reason p))
            (coordinate_revisions c d.revisions) (λ p own. retire_draining-IsFree c reason p own)
            (coordinate_revisions-All c d.revisions)))
        (λ _. close_coordinate-IsFree reason c) d (q, target_pins-empty c none d.pins empty)).0
  retire_target-IsQuiet c (some r) reason d empty q =
      bind_at IsQuiet (retire_revision lib false reason (c, r)) (λ _. maybe_retire_coordinate lib c)
        d
        (retire_empty-IsQuiet lib false reason (c, r) d (target_pins-empty c (some r) d.pins empty)
          q)
        (λ _. maybe_retire_coordinate-IsQuiet lib c) q

  drain_revisions-IsQuiet : (c reason : String) → Keeps IsQuiet (drain_revisions lib c reason)
  unfolding drain_revisions
  drain_revisions-IsQuiet c reason d q =
      let revisions = coordinate_revisions c d.revisions in
      then_Keeps IsQuiet (for_each (λ p. begin_revision_drain lib reason p.0) revisions)
        (λ _. maybe_retire_coordinate lib c >> target_snapshot c none)
        (for_each-Keeps IsQuiet (λ p. begin_revision_drain lib reason p.0) revisions
          (All-every (λ p. Keeps IsQuiet (begin_revision_drain lib reason p.0)) revisions
            (λ p. begin_revision_drain-IsQuiet lib reason p.0)))
        (λ _.
          then_Keeps IsQuiet (maybe_retire_coordinate lib c) (λ _. target_snapshot c none)
            (maybe_retire_coordinate-IsQuiet lib c) (λ _. target_snapshot-Keeps IsQuiet c none))
        d q

  pub drain_target-IsQuiet :
      (c : String) (r : Option String) (why : String) → Keeps IsQuiet (drain_target lib c r why)
  unfolding drain_target drain_coordinate drain_revision
  drain_target-IsQuiet c none why =
      then_Keeps IsQuiet (start_coordinate_drain lib c why) (λ _. drain_revisions lib c why)
        (start_coordinate_drain-IsQuiet lib c why) (λ _. drain_revisions-IsQuiet c why)
  drain_target-IsQuiet c (some r) why =
      then_Keeps IsQuiet (target_snapshot c (some r))
        (λ _. begin_revision_drain lib why (c, r) >> target_snapshot c (some r))
        (target_snapshot-Keeps IsQuiet c (some r))
        (λ _.
          then_Keeps IsQuiet (begin_revision_drain lib why (c, r)) (λ _. target_snapshot c (some r))
            (begin_revision_drain-IsQuiet lib why (c, r))
            (λ _. target_snapshot-Keeps IsQuiet c (some r)))

  snapshot_then-IsQuiet :
      (c : String) (r : Option String) (g : LifecycleSnapshot → DrainProgress)
      → Keeps IsQuiet (target_snapshot c r >>= λ s. pure (g s))
  snapshot_then-IsQuiet c r g =
      then_Keeps IsQuiet (target_snapshot c r) (λ s. pure (g s)) (target_snapshot-Keeps IsQuiet c r)
        (λ _ _ q. q)

  cancelled-IsQuiet :
      (c : String) (r : Option String) (d : Controller)
      → IsQuiet d
      → Each (Live d.revisions) (cancel_loop (target_pins c r d.pins) d.pins).1
  cancelled-IsQuiet c r d q =
      cancel_loop-Each (Live d.revisions) (λ pin live. live) (target_pins c r d.pins) d.pins
        (target_pins-Each (Live d.revisions) c r d.pins q) q

  request_cancellations-IsQuiet :
      (c : String) (r : Option String) (s : LifecycleSnapshot)
      → Keeps IsQuiet (request_cancellations lib c r s)
  unfolding request_cancellations record_event
  request_cancellations-IsQuiet c r s d q =
      let asks = (cancel_loop (target_pins c r d.pins) d.pins).0 in
      elim (Bool-cases (length asks == 0)) [
        | inl nothing ↦ rw (nothing, request_cancellations) (cancelled-IsQuiet c r d q)
        | inr asked ↦
            rw (asked, request_cancellations)
              (snapshot_then-IsQuiet c r (progress cancel_requested asks) _
                (cancelled-IsQuiet c r d q))
      ]

  advance_target-IsQuiet :
      (c : String) (r : Option String) (deadline now : ℕ) (s : LifecycleSnapshot) (d : Controller)
      → s.in_flight ≡ length (target_pins c r d.pins)
      → IsQuiet d
      → IsQuiet (advance_target lib c r deadline now s d).1
  unfolding advance_target advance_empty
  advance_target-IsQuiet c r deadline now s d counted q =
      if_at IsQuiet (is_retired s.state) _ _ d (λ _. q)
        (λ _.
          if_at IsQuiet (not (is_draining s.state)) _ _ d (λ _. q)
            (λ _.
              if_at IsQuiet (s.in_flight == 0) _ _ d
                (λ empty.
                  bind_at IsQuiet (retire_target lib c r "drained" false)
                    (λ _. target_snapshot c r >>= λ a. pure (progress retired_outcome [] a)) d
                    (retire_target-IsQuiet c r "drained" d (ground arith) q)
                    (λ _. snapshot_then-IsQuiet c r (progress retired_outcome [])) q)
                (λ _.
                  if_at IsQuiet (ltb now deadline) _ _ d (λ _. q)
                    (λ _. request_cancellations-IsQuiet c r s d q))))

  -- The snapshot counts the pins of the target.
  snapshot_counts :
      (c : String) (r : Option String) (d : Controller) (s : LifecycleSnapshot)
      → (target_snapshot c r d).0 ≡ ok s
      → s.in_flight ≡ length (target_pins c r d.pins)
  unfolding target_snapshot snapshot_of make_snapshot
  snapshot_counts c r d s e = ground arith

  pub advance_snapshot-IsQuiet :
      (c : String) (r : Option String) (deadline now : ℕ)
      → Keeps IsQuiet (target_snapshot c r >>= advance_target lib c r deadline now)
  advance_snapshot-IsQuiet c r deadline now d q =
      by_result (target_snapshot c r d).0 (target_snapshot c r d).1 (target_snapshot_unmoved c r d)
        (λ s e. snapshot_counts c r d s e)
    where
      by_result :
          (found : Result LifecycleSnapshot) (t : Controller)
          → t ≡ d
          → ((s : LifecycleSnapshot) → found ≡ ok s → s.in_flight ≡ length (target_pins c r d.pins))
          → IsQuiet
              (◌>>=◌ {B = DrainProgress}
                (λ _. (found, t))
                (advance_target lib c r deadline now)
                d).1
      by_result (raise x) t same counts = subst IsQuiet (sym same) q
      by_result (ok s) t same counts =
          subst (λ x. IsQuiet (advance_target lib c r deadline now s x).1) (sym same)
            (advance_target-IsQuiet c r deadline now s d (counts s refl) q)

  release_pin-IsQuiet : (pin : AdmissionPin) → Keeps IsQuiet (release_pin lib pin)
  unfolding release_pin
  release_pin-IsQuiet pin d q =
      let key : RevisionKey = (pin.coordinate, pin.revision) in
      elim (Option-cases (get key d.revisions)) [
        | inl gone ↦ rw (gone, release_pin) q
        | inr (state, e) ↦
            rw (e, release_pin)
              (bind_at IsQuiet
                (if is_draining state && (pin_count key.0 (some key.1) d == 0)
                  then retire_revision lib false "drained" key
                  else pure tt)
                (λ _. maybe_retire_coordinate lib pin.coordinate >> pure true) d
                (if_at IsQuiet (is_draining state && (pin_count key.0 (some key.1) d == 0)) _ _ d
                  (λ empty.
                    retire_empty-IsQuiet lib false "drained" key d
                      (target_pins-empty key.0 (some key.1) d.pins (ground arith)) q)
                  (λ _. q))
                (λ _.
                  then_Keeps IsQuiet (maybe_retire_coordinate lib pin.coordinate) (λ _. pure true)
                    (maybe_retire_coordinate-IsQuiet lib pin.coordinate) (λ _ _ p. p))
                q)
      ]

  pub release_known-IsQuiet : (p : String) → Keeps IsQuiet (release_known lib p)
  unfolding release_known
  release_known-IsQuiet p d q =
      let rest : IsQuiet (record d { pins = remove p d.pins }) =
        remove-Each (Live d.revisions) p d.pins q in
      elim (Option-cases (get p d.pins)) [
        | inl unknown ↦ rw (unknown, release_known) rest
        | inr (pin, e) ↦
            rw (e, release_known)
              (release_pin-IsQuiet pin (record d { pins = remove p d.pins }) rest)
      ]

  pub register_revision-IsQuiet : (key : RevisionKey) → Keeps IsQuiet (register_revision lib key)
  unfolding register_revision
  register_revision-IsQuiet key d q = elim (Option-cases (get key d.revisions)) [
    | inl new ↦ rw (new, register_revision) (register_new-IsQuiet lib key d q)
    | inr (state, e) ↦ rw (e, register_revision) q
  ]

pub admit_pin-IsQuiet :
    (c r p : String) (cancellable : Bool) → Keeps IsQuiet (admit_pin c r p cancellable)
admit_pin-IsQuiet c r p cancellable d q = elim (admit_pin_outcome c r p cancellable d) [
  | inl stays ↦ subst IsQuiet (sym stays) q
  | inr (pin, here, rev, open_revision, _, _, _, added) ↦ subst IsQuiet (sym added) (
      put-Each (Live d.revisions) p pin d.pins q (λ e.
        accepts (subst (λ x. get x d.revisions ≡ some retired) (λ i. (here i, rev i)) e)
          open_revision))
]
  where
    accepts : {x : Option LifecycleState} → x ≡ some retired → x ≡ some accepting → ⊥
    accepts a b = cc
