-- ===== src/Draining/Releasing.antt =====
-- src/capabilityhub/draining.py: which pins `admit` and `release` leave.
use capabilityhub.Base.{
  String, ◌≡◌, ◌≢◌, refl, sym, ap, ◌∙◌, subst, inl, inr, Bool, true, false, some, arith,
  Option-cases, if◌then◌else◌, ◌==◌, ◌&&◌,
}
use capabilityhub.Dict.{
  Dict, text_key, pair_key, get, put, remove, get-put_ne, IsDict, put-IsDict, get-remove, get-put,
}
use capabilityhub.Errors.{Exc}
use capabilityhub.Result.{Result, ok, raise}
use capabilityhub.Exec.{pure, lift, ◌>>=◌}
use capabilityhub.Exec.Steps.{Along, bind-Along, if-Along}
use capabilityhub.Draining.{
  AdmissionPin, RevisionKey, Controller, Texts, identifier, retire_revision,
  maybe_retire_coordinate, release_pin, release_known, release, admit, admit_pin, admit_new,
  is_draining, pin_count,
}
use capabilityhub.Draining.Outcomes.{retire_revision_outcome, maybe_retire_coordinate_outcome}

SamePins : Controller → Controller → Type 0
SamePins a b = b.pins ≡ a.pins

SamePins-refl : (a : Controller) → SamePins a a
unfolding SamePins
SamePins-refl a = refl

SamePins-trans : (a b c : Controller) → SamePins a b → SamePins b c → SamePins a c
unfolding SamePins
SamePins-trans a b c p q = q ∙ p

module _ (lib : Texts) where
  retire_revision-SamePins :
      (forced : Bool) (reason : String) (key : RevisionKey)
      → Along SamePins (retire_revision lib forced reason key)
  unfolding SamePins
  retire_revision-SamePins forced reason key d =
      elim (retire_revision_outcome lib reason key d forced) [
        | inl stays ↦ ap (λ x. x.pins) stays
        | inr moved ↦ moved.pins
      ]

  maybe_retire_coordinate-SamePins : (c : String) → Along SamePins (maybe_retire_coordinate lib c)
  unfolding SamePins
  maybe_retire_coordinate-SamePins c d = elim (maybe_retire_coordinate_outcome lib c d) [
    | inl stays ↦ ap (λ x. x.pins) stays
    | inr (_, _, moved) ↦ moved.pins
  ]

  release_pin-SamePins : (pin : AdmissionPin) → Along SamePins (release_pin lib pin)
  unfolding release_pin
  release_pin-SamePins pin d =
      elim (Option-cases (get (pin.coordinate, pin.revision) d.revisions)) [
        | inl gone ↦ rw (gone) (SamePins-refl d)
        | inr (state, there) ↦ rw (there) (
            bind-Along SamePins SamePins-trans
              (if is_draining state && pin_count pin.coordinate (some pin.revision) d == 0
                then retire_revision lib false "drained" (pin.coordinate, pin.revision)
                else pure tt)
              (λ _. maybe_retire_coordinate lib pin.coordinate >>= λ _. pure true)
              (if-Along SamePins _
                (retire_revision lib false "drained" (pin.coordinate, pin.revision)) (pure tt)
                (retire_revision-SamePins false "drained" (pin.coordinate, pin.revision))
                SamePins-refl)
              (λ _.
                bind-Along SamePins SamePins-trans (maybe_retire_coordinate lib pin.coordinate)
                  (λ _. pure true) (maybe_retire_coordinate-SamePins pin.coordinate)
                  (λ _. SamePins-refl))
              d)
      ]

  -- release takes the pin of the identifier out, also where it raises after that.
  pub release_pins :
      (id p : String) (d : Controller)
      → identifier lib id ≡ ok p
      → (release lib id d).1.pins ≡ remove p d.pins
  unfolding release release_known SamePins
  release_pins id p d named =
      ap (λ r. (◌>>=◌ (λ s. (r, s)) (release_known lib) d).1.pins) named ∙ known
    where
      known : (release_known lib p d).1.pins ≡ remove p d.pins
      known = elim (Option-cases (get p d.pins)) [
        | inl gone ↦ rw (gone, release_known) refl
        | inr (pin, there) ↦
            rw (there, release_known)
              (release_pin-SamePins pin (record d { pins = remove p d.pins }))
      ]

-- Every pin stands under its own identifier.
abbrev pub Keyed : Dict String AdmissionPin → Type 0
Keyed pins = (q : String) (pin : AdmissionPin) → get q pins ≡ some pin → pin.pin_id ≡ q

-- What an admission leaves: the pin under its identifier, and the others as they were.
pub record Admitted (p : String) (a b : Controller) (pin : AdmissionPin) : Type 0 where
  pub own : pin.pin_id ≡ p
  pub others : (q : String) → q ≢ p → get q b.pins ≡ get q a.pins
  pub is_dict : IsDict a.pins → IsDict b.pins
  pub keyed : Keyed b.pins

put-Keyed :
    (p : String) (pin : AdmissionPin) (pins : Dict String AdmissionPin)
    → pin.pin_id ≡ p
    → Keyed pins
    → Keyed (put p pin pins)
put-Keyed p pin pins own h q other there = elim (Option-cases (get q pins)) [
  | inl gone ↦ ground (arith, get-put p q pin pins)
  | inr (old, was) ↦ ground (arith, get-put p q pin pins, h q old was)
]

pub remove-Keyed :
    (p : String) (pins : Dict String AdmissionPin)
    → IsDict pins
    → Keyed pins
    → Keyed (remove p pins)
remove-Keyed p pins d h q pin there = h q pin (ground (arith, get-remove p q pins d))

module _ (c r p : String) (cancellable : Bool) (d : Controller) where
  admit_pin_raises :
      (e : Exc)
      → (admit_pin c r p cancellable d).0 ≡ raise e
      → (admit_pin c r p cancellable d).1 ≡ d
  unfolding admit_pin admit_new
  admit_pin_raises e h = ground arith

  admit_pin-Admitted :
      (pin : AdmissionPin)
      → Keyed d.pins
      → (admit_pin c r p cancellable d).0 ≡ ok pin
      → Admitted p d (admit_pin c r p cancellable d).1 pin
  unfolding admit_pin admit_new
  admit_pin-Admitted pin keyed h = elim (Option-cases (get p d.pins)) [
    | inr (old, known) ↦
        let stays : (admit_pin c r p cancellable d).1 ≡ d = ground arith in
        let same : old ≡ pin = ground arith in
        subst (λ b. Admitted p d b pin) (sym stays)
          (record {
            own = keyed p pin (known ∙ ap some same);
            others = λ q other. refl;
            is_dict = λ x. x;
            keyed = keyed;
          })
    | inl fresh ↦
        let own : pin.pin_id ≡ p = ground arith in
        let added : (admit_pin c r p cancellable d).1 ≡ record d { pins = put p pin d.pins } =
          ground arith in
        subst (λ b. Admitted p d b pin) (sym added)
          (record {
            own = own;
            others = λ q other. get-put_ne p q pin d.pins other;
            is_dict = put-IsDict p pin d.pins;
            keyed = put-Keyed p pin d.pins own keyed;
          })
  ]

module _ (lib : Texts) (coordinate revision pin_id : String) (cancellable : Bool)
    (d : Controller) where
  -- The chain of checks of `admit`.
  checked : Result String → Result String → Result String → Result AdmissionPin × Controller
  checked c r p = (lift c >>= λ x. lift r >>= λ y. lift p >>= λ z. admit_pin x y z cancellable) d

  -- A refused admission changes nothing.
  pub admit_raises :
      (e : Exc)
      → (admit lib coordinate revision pin_id cancellable d).0 ≡ raise e
      → (admit lib coordinate revision pin_id cancellable d).1 ≡ d
  unfolding admit checked
  admit_raises e =
      by_texts (identifier lib coordinate) (identifier lib revision) (identifier lib pin_id)
    where
      by_texts : (c r p : Result String) → (checked c r p).0 ≡ raise e → (checked c r p).1 ≡ d
      by_texts (raise x) r p h = refl
      by_texts (ok c) (raise x) p h = refl
      by_texts (ok c) (ok r) (raise x) h = refl
      by_texts (ok c) (ok r) (ok p) h = admit_pin_raises c r p cancellable d e h

  pub admit-Admitted :
      (pin : AdmissionPin)
      → Keyed d.pins
      → (admit lib coordinate revision pin_id cancellable d).0 ≡ ok pin
      → (p : String) × (identifier lib pin_id ≡ ok p)
        × Admitted p d (admit lib coordinate revision pin_id cancellable d).1 pin
  unfolding admit checked
  admit-Admitted pin keyed =
      by_texts (identifier lib coordinate) (identifier lib revision) (identifier lib pin_id)
    where
      by_texts :
          (c r q : Result String)
          → (checked c r q).0 ≡ ok pin
          → (p : String) × (q ≡ ok p) × Admitted p d (checked c r q).1 pin
      by_texts (raise x) r p h = absurd (cc)
      by_texts (ok c) (raise x) p h = absurd (cc)
      by_texts (ok c) (ok r) (raise x) h = absurd (cc)
      by_texts (ok c) (ok r) (ok p) h =
          (p, refl, admit_pin-Admitted c r p cancellable d pin keyed h)
