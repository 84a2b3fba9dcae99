-- ===== src/Exec/Steps.antt =====
-- Relations between the state before and the state after an action, whether it raises or not.
use capabilityhub.Base.{◌≡◌, ap, Bool, true, false, if◌then◌else◌}
use capabilityhub.Errors.{Exc}
use capabilityhub.Result.{Result, ok, raise}
use capabilityhub.Exec.{Exec, pure, lift, gets, ◌>>=◌, transaction}

module _ {S : Type 0} (R : S → S → Type 0) where
  -- Every run of the action relates its states.
  abbrev pub Along : {A : Type 0} → Exec S A → Type 0
  Along m = (s : S) → R s (m s).1

  module _ (trans : (a b c : S) → R a b → R b c → R a c) where
    pub bind-Along :
        {A B : Type 0} (m : Exec S A) (f : A → Exec S B)
        → Along m
        → ((a : A) → Along (f a))
        → Along (m >>= f)
    bind-Along {A} {B} m f first rest s = by_result (m s).0 (m s).1 (first s)
      where
        by_result : (r : Result A) (t : S) → R s t → R s (◌>>=◌ {B = B} (λ _. (r, t)) f s).1
        by_result (ok a) t h = trans s t (f a t).1 h (rest a t)
        by_result (raise e) t h = h

  module _ (same : (s : S) → R s s) where
    pub lift-Along : {A : Type 0} (r : Result A) → Along (lift r)
    lift-Along r s = same s

    pub gets-Along : {A : Type 0} (f : S → A) → Along (gets f)
    gets-Along f s = same s

    pub pure-Along : {A : Type 0} (a : A) → Along (pure a)
    pure-Along a s = same s

  pub if-Along :
      {A : Type 0} (c : Bool) (m n : Exec S A) → Along m → Along n → Along (if c then m else n)
  if-Along true m n h k = h
  if-Along false m n h k = k

  -- A transaction that raises leaves the first state.
  pub transaction-Along :
      {A : Type 0} (m : Exec S A) → ((s : S) → R s s) → Along m → Along (transaction m)
  transaction-Along {A} m same h s = by_result (m s).0 (m s).1 (h s)
    where
      by_result : (r : Result A) (t : S) → R s t → R s (transaction (λ _. (r, t)) s).1
      by_result (ok a) t k = k
      by_result (raise e) t k = same s

module _ {ℓ κ μ} {S : Type ℓ} {A : Type κ} {B : Type μ} where
  -- One step of a run, where the first action is known.
  pub bind_ok :
      (m : Exec S A) (f : A → Exec S B) (s : S) (a : A) (t : S)
      → m s ≡ (ok a, t)
      → (m >>= f) s ≡ f a t
  bind_ok m f s a t e = ap (λ p. ◌>>=◌ (λ _. p) f s) e

  pub bind_raise :
      (m : Exec S A) (f : A → Exec S B) (s : S) (x : Exc) (t : S)
      → m s ≡ (raise x, t)
      → (m >>= f) s ≡ (raise x, t)
  bind_raise m f s x t e = ap (λ p. ◌>>=◌ (λ _. p) f s) e
