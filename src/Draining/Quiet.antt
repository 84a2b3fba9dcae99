-- ===== src/Draining/Quiet.antt =====
-- src/capabilityhub/draining.py: draining without force retires no revision that has pins.
use capabilityhub.Base.{
  String, ◌≡◌, ◌≢◌, sym, subst, inl, inr, Bool, false, Option, none, some, List, [], ◌∷◌, arith,
  All, All-map,
}
use capabilityhub.Dict.{pair_key, text_key, put}
use capabilityhub.Exec.{Exec, ◌>>=◌}
use capabilityhub.Exec.Steps.{bind-Along}
use capabilityhub.Draining.{
  LifecycleState, accepting, draining, retired, RevisionKey, Controller, Texts, set_revision,
  set_coordinate, for_each, retire_revision, maybe_retire_coordinate, begin_revision_drain,
  register_new, start_coordinate_drain, target_snapshot, is_target,
}
use capabilityhub.Draining.Outcomes.{
  Same, retire_revision_outcome, started, started-Same, begin_revision_drain_outcome,
  maybe_retire_coordinate_outcome, start_coordinate_drain_outcome, register_new_outcome,
}
use capabilityhub.Draining.Pins.{
  Each, target_pins-empty, Each-both, Live, Live-put_other, Live-put_open,
}

-- Every pin holds a revision that is not retired.
abbrev pub IsQuiet : Controller → Type 0
IsQuiet d = Each (Live d.revisions) d.pins

-- No pin belongs to the coordinate either.
abbrev pub IsFree : String → Controller → Type 0
IsFree c d = IsQuiet d × Each (λ pin. is_target c none pin ≡ false) d.pins

abbrev pub Keeps : (Controller → Type 0) → {A : Type 0} → Exec Controller A → Type 0
Keeps P m = (d : Controller) → P d → P (m d).1

pub target_snapshot_unmoved :
    (c : String) (r : Option String) (d : Controller) → (target_snapshot c r d).1 ≡ d
unfolding target_snapshot
target_snapshot_unmoved c r d = ground arith

module _ (P : Controller → Type 0) where
  pub then_Keeps :
      {A B : Type 0} (m : Exec Controller A) (f : A → Exec Controller B)
      → Keeps P m
      → ((a : A) → Keeps P (f a))
      → Keeps P (m >>= f)
  then_Keeps = bind-Along (λ d d'. P d → P d') (λ a b c f g p. g (f p))

  pub for_each-Keeps :
      {A : Type 0} (body : A → Exec Controller (Unit {0})) (xs : List A)
      → All (λ x. Keeps P (body x)) xs
      → Keeps P (for_each body xs)
  unfolding for_each
  for_each-Keeps body [] h d p = p
  for_each-Keeps body (x ∷ xs) h d p =
      then_Keeps (body x) (λ _. for_each body xs) h.0 (λ _. for_each-Keeps body xs h.1) d p

  pub target_snapshot-Keeps : (c : String) (r : Option String) → Keeps P (target_snapshot c r)
  target_snapshot-Keeps c r d p = subst P (sym (target_snapshot_unmoved c r d)) p

-- States and pins decide both.
pub Same-IsQuiet : (d d' : Controller) → Same d d' → IsQuiet d → IsQuiet d'
Same-IsQuiet d d' s q =
    subst (λ r. Each (Live r) d'.pins) (sym s.revisions)
      (subst (Each (Live d.revisions)) (sym s.pins) q)

pub Same-IsFree : (c : String) (d d' : Controller) → Same d d' → IsFree c d → IsFree c d'
Same-IsFree c d d' s (q, f) =
    (Same-IsQuiet d d' s q, subst (Each (λ pin. is_target c none pin ≡ false)) (sym s.pins) f)

open_revision-IsQuiet :
    (key : RevisionKey) (s : LifecycleState) (d d' : Controller)
    → s ≢ retired
    → Same (set_revision key s d) d'
    → IsQuiet d
    → IsQuiet d'
open_revision-IsQuiet key s d d' open_state h q = Same-IsQuiet (set_revision key s d) d' h (
    All-map (λ x. Live d.revisions x.1) (λ x. Live (put key s d.revisions) x.1) d.pins
      (λ x live. Live-put_open key s d.revisions x.1 open_state live) q)

empty_revision-IsQuiet :
    (key : RevisionKey) (d d' : Controller)
    → Each (λ pin. is_target key.0 (some key.1) pin ≡ false) d.pins
    → Same (set_revision key retired d) d'
    → IsQuiet d
    → IsQuiet d'
empty_revision-IsQuiet key d d' empty h q = Same-IsQuiet (set_revision key retired d) d' h (
    Each-both (λ pin. is_target key.0 (some key.1) pin ≡ false) (Live d.revisions)
      (Live (put key retired d.revisions)) d.pins
      (λ pin miss live. Live-put_other key retired d.revisions pin miss live) empty q)

module _ (lib : Texts) where
  pub retire_empty-IsQuiet :
      (forced : Bool) (reason : String) (key : RevisionKey) (d : Controller)
      → Each (λ pin. is_target key.0 (some key.1) pin ≡ false) d.pins
      → IsQuiet d
      → IsQuiet (retire_revision lib forced reason key d).1
  retire_empty-IsQuiet forced reason key d empty q =
      elim (retire_revision_outcome lib reason key d forced) [
        | inl stays ↦ subst IsQuiet (sym stays) q
        | inr h ↦ empty_revision-IsQuiet key d _ empty h q
      ]

  pub maybe_retire_coordinate-IsQuiet : (c : String) → Keeps IsQuiet (maybe_retire_coordinate lib c)
  maybe_retire_coordinate-IsQuiet c d q = elim (maybe_retire_coordinate_outcome lib c d) [
    | inl stays ↦ subst IsQuiet (sym stays) q
    | inr (_, _, h) ↦ Same-IsQuiet (set_coordinate c retired d) _ h q
  ]

  pub begin_revision_drain-IsQuiet :
      (reason : String) (key : RevisionKey) → Keeps IsQuiet (begin_revision_drain lib reason key)
  begin_revision_drain-IsQuiet reason key d q =
      let begun_quiet : IsQuiet (started lib reason key d) =
        open_revision-IsQuiet key draining d (started lib reason key d) (λ e. cc)
          (started-Same lib reason key d) q in
      elim (begin_revision_drain_outcome lib reason key d) [
        | inl stays ↦ subst IsQuiet (sym stays) q
        | inr (e, inl begun) ↦ subst IsQuiet (sym begun) begun_quiet
        | inr (e, inr (empty, drained)) ↦ subst IsQuiet (sym drained) (
            retire_empty-IsQuiet false "drained" key (started lib reason key d)
              (subst (Each (λ pin. is_target key.0 (some key.1) pin ≡ false))
                (sym (started-Same lib reason key d).pins)
                (target_pins-empty key.0 (some key.1) d.pins empty))
              begun_quiet)
      ]

  pub start_coordinate_drain-IsQuiet :
      (c reason : String) → Keeps IsQuiet (start_coordinate_drain lib c reason)
  start_coordinate_drain-IsQuiet c reason d q =
      elim (start_coordinate_drain_outcome lib c d reason) [
        | inl stays ↦ subst IsQuiet (sym stays) q
        | inr (e, h) ↦ Same-IsQuiet (set_coordinate c draining d) _ h q
      ]

  pub register_new-IsQuiet : (key : RevisionKey) → Keeps IsQuiet (register_new lib key)
  register_new-IsQuiet key d q = elim (register_new_outcome lib key d) [
    | inl stays ↦ subst IsQuiet (sym stays) q
    | inr (_, inl (_, h)) ↦ open_revision-IsQuiet key accepting d _ (λ e. cc) h q
    | inr (_, inr (_, _, h)) ↦
        open_revision-IsQuiet key accepting (set_coordinate key.0 accepting d) _ (λ e. cc) h q
  ]
