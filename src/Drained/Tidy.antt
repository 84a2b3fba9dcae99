-- ===== src/Drained/Tidy.antt =====
-- src/capabilityhub/drained_service.py: that an execution leaves no pin and no identifier behind.
use capabilityhub.Base.{
  String, ◌≡◌, ◌≢◌, refl, sym, ap, ◌∙◌, subst, inl, inr, Bool, true, false, Option, none, some,
  List, [], ◌∷◌, arith, Bool-cases, text_dec,
}
use capabilityhub.Dict.{text_key, get, IsDict}
use capabilityhub.Errors.{Exc}
use capabilityhub.Result.{Result, ok, raise}
use capabilityhub.Exec.{Exec, ◌>>=◌, finally}
use capabilityhub.Exec.Steps.{Along, bind-Along, bind_ok, bind_raise}
use capabilityhub.Draining.Releasing.{Keyed}
use capabilityhub.Drained.{
  wrapper_error, wrap_others, wrap_all, Wrapper, is_active, discard, in_world, claim_pin,
  discard_pin, release_error, raise_error, release_outcome, clean_up,
}

discarded : (k : String) (xs : List String) → is_active k (discard k xs) ≡ false
discarded k [] = refl
discarded k (x ∷ xs) = ground (arith, discarded k xs)

is_active-discard :
    (k q : String) (xs : List String) → q ≢ k → is_active q (discard k xs) ≡ is_active q xs
is_active-discard k q [] h = refl
is_active-discard k q (x ∷ xs) h = ground (arith, is_active-discard k q xs h)

module _ {W : Type 0} where
  -- The pins are a dictionary, each under its own identifier.
  pub record IsSound (s : Wrapper W) : Type 0 where
    pub is_dict : IsDict s.drain.pins
    pub keyed : Keyed s.drain.pins

  -- A sound state, in which nothing is pinned or in use that was not before.
  pub record Left (s t : Wrapper W) : Type 0 where
    pub sound : IsSound t
    pub pins : (q : String) → get q s.drain.pins ≡ none → get q t.drain.pins ≡ none
    pub active :
        (k : String) → is_active k s.active_pin_ids ≡ false → is_active k t.active_pin_ids ≡ false

  abbrev pub Leaves : Wrapper W → Wrapper W → Type 0
  Leaves s t = IsSound s → Left s t

  pub Leaves-refl : (s : Wrapper W) → Leaves s s
  Leaves-refl s h = record { sound = h; pins = λ q n. n; active = λ k n. n }

  pub Leaves-trans : (a b c : Wrapper W) → Leaves a b → Leaves b c → Leaves a c
  Leaves-trans a b c f g h =
      let p = f h in
      let q = g p.sound in
      record {
        sound = q.sound;
        pins = λ k n. q.pins k (p.pins k n);
        active = λ k n. q.active k (p.active k n);
      }

  pub then_Leaves :
      {A B : Type 0} (m : Exec (Wrapper W) A) (f : A → Exec (Wrapper W) B)
      → Along Leaves m
      → ((a : A) → Along Leaves (f a))
      → Along Leaves (m >>= f)
  then_Leaves = bind-Along Leaves Leaves-trans

  pub in_world-Leaves : {A : Type 0} (m : Exec W A) → Along Leaves (in_world m)
  in_world-Leaves m s h = record {
    sound = record { is_dict = h.is_dict; keyed = h.keyed };
    pins = λ q n. n;
    active = λ k n. n;
  }

  -- The wrapping of an exception does not touch the state.
  pub wrap_others-Leaves :
      {A : Type 0} (code : String) (m : Exec (Wrapper W) A)
      → Along Leaves m
      → Along Leaves (wrap_others code m)
  wrap_others-Leaves {A} code m h s = by_result (m s).0 (m s).1 (h s)
    where
      by_result :
          (r : Result A) (t : Wrapper W)
          → Leaves s t
          → Leaves s (wrap_others code (λ _. (r, t)) s).1
      by_result (ok a) t k = k
      by_result (raise e) t k = k

  pub wrap_all-Leaves :
      {A : Type 0} (code : String) (m : Exec (Wrapper W) A)
      → Along Leaves m
      → Along Leaves (wrap_all code m)
  wrap_all-Leaves {A} code m h s = by_result (m s).0 (m s).1 (h s)
    where
      by_result :
          (r : Result A) (t : Wrapper W) → Leaves s t → Leaves s (wrap_all code (λ _. (r, t)) s).1
      by_result (ok a) t k = k
      by_result (raise e) t k = k

  -- `finally` in two steps: a relation along the body, and one along the cleanup.
  pub finally_at :
      {A : Type 0} (R : Wrapper W → Wrapper W → Type 0) (m : Exec (Wrapper W) A)
      (cleanup : Exec (Wrapper W) (Unit {0})) (s : Wrapper W)
      → R s (cleanup (m s).1).1
      → R s (finally m cleanup s).1
  finally_at {A} R m cleanup s h = by_result (cleanup (m s).1).0 (cleanup (m s).1).1 h
    where
      by_result :
          (c : Result (Unit {0})) (u : Wrapper W)
          → R s u
          → R s (finally (λ _. m s) (λ _. (c, u)) s).1
      by_result (ok tt) u k = k
      by_result (raise e) u k = k

  -- The identifier is no longer in use.
  abbrev pub Freed : String → Wrapper W → Wrapper W → Type 0
  Freed k s t = Leaves s t × (is_active k t.active_pin_ids ≡ false)

  release_error-Leaves :
      (callback : Option (String → Exec W Bool)) (k : String)
      → Along Leaves (release_error callback k)
  unfolding release_error
  release_error-Leaves none k s = Leaves-refl s
  release_error-Leaves (some f) k s = in_world-Leaves (f k) s

  raise_error_state : (e : Option Exc) (s : Wrapper W) → (raise_error e s).1 ≡ s
  raise_error_state none s = refl
  raise_error_state (some e) s = refl

  discard_pin-Freed : (k : String) (s : Wrapper W) → Freed k s (discard_pin k s).1
  unfolding discard_pin
  discard_pin-Freed k s = (
    λ h. record {
      sound = record { is_dict = h.is_dict; keyed = h.keyed };
      pins = λ q n. n;
      active = λ q n. elim (text_dec q k) [
        | yes same ↦
            subst (λ x. is_active x (discard k s.active_pin_ids) ≡ false) (sym same)
              (discarded k s.active_pin_ids)
        | no other ↦ is_active-discard k q s.active_pin_ids other ∙ n
      ];
    },
    discarded k s.active_pin_ids,
  )

  clean_up-Freed :
      (callback : Option (String → Exec W Bool)) (k : String) (s : Wrapper W)
      → Freed k s (clean_up callback k s).1
  unfolding clean_up release_error discard_pin
  clean_up-Freed none k s =
      subst (Freed k s) (sym (raise_error_state none (discard_pin k s).1)) (discard_pin-Freed k s)
  clean_up-Freed (some f) k s =
      let (r, t) = in_world (f k) s in
      let (freed, gone) = discard_pin-Freed k t in
      subst (Freed k s) (sym (raise_error_state (release_outcome r) (discard_pin k t).1))
        (Leaves-trans s t (discard_pin k t).1 (in_world-Leaves (f k) s) freed, gone)

  -- Whatever the body does, the identifier is free after the cleanup.
  pub cleaned-Freed :
      {A : Type 0} (m : Exec (Wrapper W) A) (callback : Option (String → Exec W Bool)) (k : String)
      → Along Leaves m
      → Along (Freed k) (finally m (clean_up callback k))
  cleaned-Freed m callback k h s =
      let t = (m s).1 in
      let (freed, gone) = clean_up-Freed callback k t in
      finally_at (Freed k) m (clean_up callback k) s
        (Leaves-trans s t (clean_up callback k t).1 (h s) freed, gone)

  claim_used :
      (k : String) (s : Wrapper W)
      → is_active k s.active_pin_ids ≡ true
      → claim_pin k s ≡ (raise (wrapper_error "execution_pin_conflict"), s)
  unfolding claim_pin
  claim_used k s used = rw (used, claim_pin) refl

  claim_new :
      (k : String) (s : Wrapper W)
      → is_active k s.active_pin_ids ≡ false
      → claim_pin k s ≡ (ok tt, record s { active_pin_ids = k ∷ s.active_pin_ids })
  unfolding claim_pin
  claim_new k s new = rw (new, claim_pin) refl

  -- An identifier that is claimed and freed again.
  pub claimed-Leaves :
      {A : Type 0} (k : String) (m : Exec (Wrapper W) A)
      → Along (Freed k) m
      → Along Leaves (claim_pin k >>= λ _. m)
  claimed-Leaves k m h s = elim (Bool-cases (is_active k s.active_pin_ids)) [
    | inl used ↦
        subst (Leaves s)
          (sym (ap (λ p. p.1) (bind_raise (claim_pin k) (λ _. m) s _ s (claim_used k s used))))
          (Leaves-refl s)
    | inr new ↦
        let t = record s { active_pin_ids = k ∷ s.active_pin_ids } in
        let (freed, gone) = h t in
        subst (Leaves s)
          (sym (ap (λ p. p.1) (bind_ok (claim_pin k) (λ _. m) s tt t (claim_new k s new))))
          (λ sound.
            let left = freed (record { is_dict = sound.is_dict; keyed = sound.keyed }) in
            record {
              sound = left.sound;
              pins = left.pins;
              active = λ q n. elim (text_dec q k) [
                | yes same ↦ subst (λ x. is_active x (m t).1.active_pin_ids ≡ false) (sym same) gone
                | no other ↦ left.active q (ground arith)
              ];
            })
  ]
