-- ===== src/Draining/Pins.antt =====
-- src/capabilityhub/draining.py: the pins of a target, and the pins that revisions hold.
use capabilityhub.Base.{
  String, ◌≡◌, ◌≢◌, sym, ap, ◌∙◌, true, false, Option, some, List, [], ◌∷◌, arith, Bool-cases,
  length, All, inl, inr,
}
use capabilityhub.Dict.{pair_key, pair_dec, Dict, text_key, get, put, remove, get-put}
use capabilityhub.Draining.State.{LifecycleState, retired, AdmissionPin, RevisionKey}
use capabilityhub.Draining.Core.{text_is, is_target, target_pins, cancel_loop, wants_cancel}

module _ {V : Type 0} (P : V → Type 0) where
  -- Of every value in the dict.
  abbrev pub Each : Dict String V → Type 0
  Each d = All (λ x. P x.1) d

  pub put-Each : (k : String) (v : V) (d : Dict String V) → Each d → P v → Each (put k v d)
  put-Each k v [] h p = (p, tt)
  put-Each k v ((j, w) ∷ d) h p = ground (arith, put-Each k v d h.1 p, h.0, h.1)

  pub remove-Each : (k : String) (d : Dict String V) → Each d → Each (remove k d)
  remove-Each k [] h = tt
  remove-Each k ((j, w) ∷ d) h = ground (arith, remove-Each k d h.1, h.0, h.1)

pub target_pins-Each :
    (P : AdmissionPin → Type 0) (c : String) (r : Option String) (d : Dict String AdmissionPin)
    → Each P d
    → All P (target_pins c r d)
unfolding target_pins
target_pins-Each P c r [] h = tt
target_pins-Each P c r ((p, pin) ∷ d) h = elim (Bool-cases (is_target c r pin)) [
  | inl hit ↦ rw hit (h.0, target_pins-Each P c r d h.1)
  | inr miss ↦ rw miss (target_pins-Each P c r d h.1)
]

-- Without pins of a target, no pin is one.
pub target_pins-empty :
    (c : String) (r : Option String) (d : Dict String AdmissionPin)
    → length (target_pins c r d) ≡ 0
    → Each (λ pin. is_target c r pin ≡ false) d
unfolding target_pins
target_pins-empty c r [] e = tt
target_pins-empty c r ((p, pin) ∷ d) e = elim (Bool-cases (is_target c r pin)) [
  | inl hit ↦ absurd (ground arith)
  | inr miss ↦ (miss, target_pins-empty c r d (ground arith))
]

pub cancel_loop-Each :
    (P : AdmissionPin → Type 0)
    → ((pin : AdmissionPin) → P pin → P (record pin { cancel_requested = true }))
    → (pins : List AdmissionPin) (d : Dict String AdmissionPin) → All P pins
    → Each P d
    → Each P (cancel_loop pins d).1
unfolding cancel_loop
cancel_loop-Each P keep [] d h each = each
cancel_loop-Each P keep (pin ∷ pins) d h each = elim (Bool-cases (wants_cancel pin)) [
  | inl asks ↦ rw asks (
      cancel_loop-Each P keep pins (put pin.pin_id (record pin { cancel_requested = true }) d) h.1
        (put-Each P pin.pin_id (record pin { cancel_requested = true }) d each (keep pin h.0)))
  | inr skips ↦ rw skips (cancel_loop-Each P keep pins d h.1 each)
]

pub Each-both :
    (P Q R : AdmissionPin → Type 0) (d : Dict String AdmissionPin)
    → ((pin : AdmissionPin) → P pin → Q pin → R pin)
    → Each P d
    → Each Q d
    → Each R d
Each-both P Q R [] f p q = tt
Each-both P Q R (x ∷ d) f p q = (f x.1 p.0 q.0, Each-both P Q R d f p.1 q.1)

-- The pin holds a revision that is not retired.
abbrev pub Live : Dict RevisionKey LifecycleState → AdmissionPin → Type 0
Live revisions pin = get (pin.coordinate, pin.revision) revisions ≢ some retired

text_is_same : {a b : String} → a ≡ b → text_is a b ≡ true
text_is_same {a} {b} e = ground arith

pub Live-put_other :
    (key : RevisionKey) (s : LifecycleState) (d : Dict RevisionKey LifecycleState)
    (pin : AdmissionPin)
    → is_target key.0 (some key.1) pin ≡ false
    → Live d pin
    → Live (put key s d) pin
Live-put_other key s d pin miss live = elim (pair_dec key (pin.coordinate, pin.revision)) [
  | yes same ↦ absurd (hit same)
  | no other ↦ λ e. live (sym (ground (arith, get-put key (pin.coordinate, pin.revision) s d)) ∙ e)
]
  where
    targets : text_is pin.coordinate key.0 ≡ true → text_is pin.revision key.1 ≡ true → ⊥
    targets a b = ground arith

    hit : key ≡ (pin.coordinate, pin.revision) → ⊥
    hit same =
        targets (text_is_same (ap (λ x. x.0) (sym same))) (text_is_same (ap (λ x. x.1) (sym same)))

pub Live-put_open :
    (key : RevisionKey) (s : LifecycleState) (d : Dict RevisionKey LifecycleState)
    (pin : AdmissionPin)
    → s ≢ retired
    → Live d pin
    → Live (put key s d) pin
Live-put_open key s d pin open_state live e = elim (pair_dec key (pin.coordinate, pin.revision)) [
  | yes same ↦ open_state (ground (arith, get-put key (pin.coordinate, pin.revision) s d))
  | no other ↦ live (ground (arith, get-put key (pin.coordinate, pin.revision) s d))
]
