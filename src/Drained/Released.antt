-- ===== src/Drained/Released.antt =====
-- src/capabilityhub/drained_service.py: that `execute` gives back what it has taken.
use capabilityhub.Base.{String, ◌≡◌, refl, sym, ap, ◌∙◌, subst, Option, none, some, text_dec}
use capabilityhub.Dict.{
  text_key, get, remove, IsDict, remove-IsDict, get-remove_self, get-remove_ne,
}
use capabilityhub.Errors.{Exc}
use capabilityhub.Result.{Result, ok, raise}
use capabilityhub.Exec.{Exec, pure, throw, ◌>>=◌, finally}
use capabilityhub.Exec.Steps.{Along, if-Along}
use capabilityhub.Models.Manifests.{ExecutionRequest, ExecutionResult}
use capabilityhub.Draining.{Controller, Texts, AdmissionPin, identifier, admit, release}
use capabilityhub.Draining.Releasing.{
  Keyed, Admitted, release_pins, admit_raises, admit-Admitted, remove-Keyed,
}
use capabilityhub.Drained.{
  ExecutionBinding, wrapper_error, wrap_others, wrap_all, Wrapper, is_active, in_world, in_drain,
  claim_pin, clean_up, Parts, release_after, admit_and_run, run_pinned, pin_and_run, run_claimed,
  check_operation, check_pin_id, execute, lifecycle_not_accepting,
}
use capabilityhub.Drained.Tidy.{
  IsSound, Left, Leaves, Leaves-refl, Leaves-trans, then_Leaves, in_world-Leaves,
  wrap_others-Leaves, wrap_all-Leaves, finally_at, Freed, cleaned-Freed, claimed-Leaves,
}

-- An identifier that is in normal form stays as it is.
abbrev pub IsStable : Texts → Type 0
IsStable lib = (id p : String) → identifier lib id ≡ ok p → identifier lib p ≡ ok p

-- A last step that does nothing.
then_done :
    {S A : Type 0} (m : Exec S A) (s : S) → (◌>>=◌ {B = Unit {0}} m (λ _. pure tt) s).1 ≡ (m s).1
then_done {S} {A} m s = by_result (m s).0 (m s).1
  where
    by_result : (r : Result A) (t : S) → (◌>>=◌ {B = Unit {0}} (λ _. (r, t)) (λ _. pure tt) s).1 ≡ t
    by_result (ok a) t = refl
    by_result (raise e) t = refl

module _ {Json W : Type 0} (lib : Texts) (stable : IsStable lib) (parts : Parts Json W)
    (served : (request : ExecutionRequest Json)
      → Along Leaves (parts.service_execute request)) where
  release_after_state :
      (pin : AdmissionPin) (s : Wrapper W)
      → (release_after Json W lib parts pin s).1
        ≡ record s { drain = (release lib pin.pin_id s.drain).1 }
  unfolding release_after
  release_after_state pin s = then_done (in_drain (release lib pin.pin_id)) s

  -- An admitted pin, what the service does under it, and its release.
  under_pin :
      (request : ExecutionRequest Json) (pin : AdmissionPin) (p : String) (s t : Wrapper W)
      → IsSound s
      → identifier lib p ≡ ok p
      → Admitted p s.drain t.drain pin
      → t.active_pin_ids ≡ s.active_pin_ids
      → Left s (finally (parts.service_execute request) (release_after Json W lib parts pin) t).1
  under_pin request pin p s t sound named admitted same =
      let before : IsSound t = record {
        is_dict = admitted.is_dict sound.is_dict;
        keyed = admitted.keyed;
      } in
      let ran = served request t before in
      let u = (parts.service_execute request t).1 in
      let own = subst (λ x. identifier lib x ≡ ok p) (sym admitted.own) named in
      let pins = release_pins lib pin.pin_id p u.drain own in
      finally_at (λ _ x. Left s x) (parts.service_execute request)
        (release_after Json W lib parts pin) t
        (subst (Left s) (sym (release_after_state pin u)) (record {
          sound = record {
            is_dict = subst IsDict (sym pins) (remove-IsDict p u.drain.pins ran.sound.is_dict);
            keyed =
                subst Keyed (sym pins)
                  (remove-Keyed p u.drain.pins ran.sound.is_dict ran.sound.keyed);
          };
          pins = λ q n. ap (get q) pins ∙ (elim (text_dec q p) [
            | yes here ↦
                subst (λ x. get x (remove p u.drain.pins) ≡ none) (sym here)
                  (get-remove_self p u.drain.pins ran.sound.is_dict)
            | no other ↦
                get-remove_ne p q u.drain.pins other ∙ ran.pins q (admitted.others q other ∙ n)
          ]);
          active = λ k n. ran.active k (ap (is_active k) same ∙ n);
        }))

  admit_and_run-Leaves :
      (request : ExecutionRequest Json) (binding : ExecutionBinding Json) (k : String)
      → Along Leaves (admit_and_run Json W lib parts request binding k)
  unfolding admit_and_run
  admit_and_run-Leaves request binding k s sound =
      let m = admit lib binding.coordinate binding.revision k binding.cancellable in
      by_result (m s.drain).0 (m s.drain).1
        (admit_raises lib binding.coordinate binding.revision k binding.cancellable s.drain)
        (λ pin.
          admit-Admitted lib binding.coordinate binding.revision k binding.cancellable s.drain pin
            sound.keyed)
    where
      by_result :
          (r : Result AdmissionPin) (d : Controller)
          → ((e : Exc) → r ≡ raise e → d ≡ s.drain)
          → ((pin : AdmissionPin)
              → r ≡ ok pin
              → (p : String) × (identifier lib k ≡ ok p) × Admitted p s.drain d pin)
          → Left s
              (◌>>=◌ {B = ExecutionResult Json}
                (λ _. (r, record s { drain = d }))
                (λ pin.
                  finally (parts.service_execute request) (release_after Json W lib parts pin))
                s).1
      by_result (raise e) d refused granted =
          subst (λ x. Left s (record s { drain = x })) (sym (refused e refl)) (Leaves-refl s sound)
      by_result (ok pin) d refused granted =
          let (p, named, admitted) = granted pin refl in
          under_pin request pin p s (record s { drain = d }) sound (stable k p named) admitted refl

  run_pinned-Leaves :
      (request : ExecutionRequest Json) (binding : ExecutionBinding Json) (k revision : String)
      → Along Leaves (run_pinned Json W lib parts request binding k revision)
  unfolding run_pinned
  run_pinned-Leaves request binding k revision =
      if-Along Leaves _ (admit_and_run Json W lib parts request binding k)
        (throw lifecycle_not_accepting) (admit_and_run-Leaves request binding k) Leaves-refl

  pin_and_run-Freed :
      (request : ExecutionRequest Json) (binding : ExecutionBinding Json) (k : String)
      (f : String → String → Exec W String)
      → Along (Freed k) (pin_and_run Json W lib parts request binding k f)
  unfolding pin_and_run
  pin_and_run-Freed request binding k f s =
      let m = wrap_others "execution_revision_pin_failed" (in_world (f binding.coordinate k)) in
      by_result (m s).0 (m s).1 (
        wrap_others-Leaves "execution_revision_pin_failed" (in_world (f binding.coordinate k))
          (in_world-Leaves (f binding.coordinate k)) s)
    where
      after : Result String → Wrapper W → Result (ExecutionResult Json) × Wrapper W
      after r t = elim r [
        | ok revision ↦
            finally (run_pinned Json W lib parts request binding k revision)
              (clean_up parts.release_revision k) t
        | raise e ↦ finally (throw e) (clean_up none k) t
      ]

      by_result : (r : Result String) (t : Wrapper W) → Leaves s t → Freed k s (after r t).1
      by_result (ok revision) t h =
          let (freed, gone) =
            cleaned-Freed (run_pinned Json W lib parts request binding k revision)
              parts.release_revision k (run_pinned-Leaves request binding k revision) t in
          (Leaves-trans s t (after (ok revision) t).1 h freed, gone)
      by_result (raise e) t h =
          let stop : Exec (Wrapper W) (ExecutionResult Json) = throw e in
          let (freed, gone) = cleaned-Freed stop none k Leaves-refl t in
          (Leaves-trans s t (after (raise e) t).1 h freed, gone)

  run_claimed-Freed :
      (request : ExecutionRequest Json) (binding : ExecutionBinding Json) (k : String)
      → Along (Freed k) (run_claimed Json W lib parts request binding k)
  unfolding run_claimed
  run_claimed-Freed request binding k = by_callback parts.pin_revision
    where
      by_callback :
          (o : Option (String → String → Exec W String))
          → Along (Freed k) (elim o [
            | none ↦ finally (admit_and_run Json W lib parts request binding k) (clean_up none k)
            | some f ↦ pin_and_run Json W lib parts request binding k f
          ])
      by_callback none =
          cleaned-Freed (admit_and_run Json W lib parts request binding k) none k
            (admit_and_run-Leaves request binding k)
      by_callback (some f) = pin_and_run-Freed request binding k f

  check_operation-Leaves :
      (request : ExecutionRequest Json) (binding : ExecutionBinding Json)
      → Along Leaves (check_operation Json W lib parts request binding)
  unfolding check_operation
  check_operation-Leaves request binding =
      if-Along Leaves _ (pure tt) (throw (wrapper_error "execution_binding_mismatch")) Leaves-refl
        Leaves-refl

  check_pin_id-Leaves : (k : String) → Along Leaves (check_pin_id Json W lib parts k)
  unfolding check_pin_id
  check_pin_id-Leaves k =
      if-Along Leaves _ (throw (wrapper_error "execution_pin_creation_failed")) (pure tt)
        Leaves-refl Leaves-refl

  -- Where identifiers in normal form are stable, and what the service does leaves no pin and no
  -- identifier behind: execute on a sound state ends in one, and whether it returns or raises, no
  -- identifier is in use that was not before, and no execution is pinned that was not before.
  pub execute-Leaves :
      (request : ExecutionRequest Json) → Along Leaves (execute Json W lib parts request)
  unfolding execute
  execute-Leaves request =
      let named : ExecutionBinding Json → Exec (Wrapper W) String =
        λ b. wrap_all "execution_pin_creation_failed" (in_world (parts.pin_id_factory request b)) in
      let run : ExecutionBinding Json → String → Exec (Wrapper W) (ExecutionResult Json) = λ b k.
        check_pin_id Json W lib parts k >>= λ _.
        claim_pin k >>= λ _. run_claimed Json W lib parts request b k in
      then_Leaves (in_world (parts.resolve request))
        (λ b. check_operation Json W lib parts request b >>= λ _. named b >>= λ k. run b k)
        (in_world-Leaves (parts.resolve request))
        (λ b.
          then_Leaves (check_operation Json W lib parts request b) (λ _. named b >>= λ k. run b k)
            (check_operation-Leaves request b)
            (λ _.
              then_Leaves (named b) (run b)
                (wrap_all-Leaves "execution_pin_creation_failed"
                  (in_world (parts.pin_id_factory request b))
                  (in_world-Leaves (parts.pin_id_factory request b)))
                (λ k.
                  then_Leaves (check_pin_id Json W lib parts k)
                    (λ _. claim_pin k >>= λ _. run_claimed Json W lib parts request b k)
                    (check_pin_id-Leaves k)
                    (λ _.
                      claimed-Leaves k (run_claimed Json W lib parts request b k)
                        (run_claimed-Freed request b k)))))
