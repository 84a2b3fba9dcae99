-- ===== src/Draining/Admission.antt =====
-- src/capabilityhub/draining.py: what `admit` grants.
use capabilityhub.Base.{
  ◌≤◌, String, ◌≡◌, sym, subst, inl, inr, Bool, true, false, some, arith, Option-cases, Bool-cases,
  text_dec, length, leb,
}
use capabilityhub.Dict.{pair_key, text_key, get, length-put_new}
use capabilityhub.Result.{Result, ok, raise}
use capabilityhub.Exec.{lift, ◌>>=◌}
use capabilityhub.Draining.{
  accepting, AdmissionPin, Controller, Texts, admit, admit_pin, admit_new, identifier, same_pin,
  text_is,
}

-- What a pin that `admit` returns stands for.
pub record Granted (d d' : Controller) (pin : AdmissionPin) : Type 0 where
  pub revision_accepts : get (pin.coordinate, pin.revision) d.revisions ≡ some accepting
  pub coordinate_accepts : get pin.coordinate d.coordinates ≡ some accepting
  pub bounded : length d.pins ≤ d.max_in_flight → length d'.pins ≤ d.max_in_flight

text_of : (a b : String) → text_is a b ≡ true → a ≡ b
text_of a b e = elim (text_dec a b) [ yes same ↦ same | no differs ↦ absurd (ground arith) ]

module _ (c r p : String) (cancellable : Bool) (d : Controller) where
  -- A new pin of the target.
  abbrev new_pin : AdmissionPin
  new_pin = record {
    pin_id = p;
    coordinate = c;
    revision = r;
    cancellable = cancellable;
    cancel_requested = false;
  }

  -- `admit` of a target that accepts.
  accepting_admits :
      get (c, r) d.revisions ≡ some accepting
      → get c d.coordinates ≡ some accepting
      → (pin : AdmissionPin) → (admit_pin c r p cancellable d).0 ≡ ok pin
      → (pin.coordinate ≡ c)
        × (pin.revision ≡ r)
        × (length d.pins ≤ d.max_in_flight
            → length (admit_pin c r p cancellable d).1.pins ≤ d.max_in_flight)
  unfolding admit_pin admit_new
  accepting_admits re ce pin e = elim (Option-cases (get p d.pins)) [
    | inl fresh ↦ elim (Bool-cases (leb d.max_in_flight (length d.pins))) [
      | inl full ↦ absurd (ground arith)
      | inr room ↦
          (ground arith, ground arith, λ b. ground (arith, length-put_new p d.pins new_pin))
    ]
    | inr (old, known) ↦ elim (Bool-cases (same_pin old c r cancellable)) [
      | inl fits ↦ (
        text_of pin.coordinate c (ground arith),
        text_of pin.revision r (ground arith),
        λ b. ground arith,
      )
      | inr clash ↦ absurd (ground arith)
    ]
  ]

  admits_accepting :
      (pin : AdmissionPin)
      → (admit_pin c r p cancellable d).0 ≡ ok pin
      → (get (c, r) d.revisions ≡ some accepting) × (get c d.coordinates ≡ some accepting)
  unfolding admit_pin
  admits_accepting pin e = (ground arith, ground arith)

  admit_pin-Granted :
      (pin : AdmissionPin)
      → (admit_pin c r p cancellable d).0 ≡ ok pin
      → Granted d (admit_pin c r p cancellable d).1 pin
  admit_pin-Granted pin e =
      let (re, ce) = admits_accepting pin e in
      let (pc, pr, bounded) = accepting_admits re ce pin e in
      record {
        revision_accepts =
            subst (λ x. get x d.revisions ≡ some accepting) (λ i. (sym pc i, sym pr i)) re;
        coordinate_accepts = subst (λ x. get x d.coordinates ≡ some accepting) (sym pc) ce;
        bounded = bounded;
      }

-- If `admit` returns a pin, the pin's revision and its coordinate were both accepting, and if
-- the number of pins was within its maximum it stays so.
pub admit-Granted :
    (lib : Texts) (coordinate revision pin_id : String) (cancellable : Bool) (d : Controller)
    (pin : AdmissionPin)
    → (admit lib coordinate revision pin_id cancellable d).0 ≡ ok pin
    → Granted d (admit lib coordinate revision pin_id cancellable d).1 pin
unfolding admit
admit-Granted lib coordinate revision pin_id cancellable d pin =
    by_texts (identifier lib coordinate) (identifier lib revision) (identifier lib pin_id)
  where
    by_texts :
        (c r p : Result String)
        → ((lift c >>= λ x. lift r >>= λ y. lift p >>= λ z. admit_pin x y z cancellable) d).0
          ≡ ok pin
        → Granted d
            ((lift c >>= λ x. lift r >>= λ y. lift p >>= λ z. admit_pin x y z cancellable) d).1
            pin
    by_texts (raise x) r p e = absurd (cc)
    by_texts (ok c) (raise x) p e = absurd (cc)
    by_texts (ok c) (ok r) (raise x) e = absurd (cc)
    by_texts (ok c) (ok r) (ok p) e = admit_pin-Granted c r p cancellable d pin e
