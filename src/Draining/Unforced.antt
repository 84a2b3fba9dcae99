-- ===== src/Draining/Unforced.antt =====
-- src/capabilityhub/draining.py: runs of calls other than `force_retire`.
use capabilityhub.Base.{ℕ, String, Bool, Option}
use capabilityhub.Dict.{pair_key, text_key}
use capabilityhub.Result.{Result, ok, raise}
use capabilityhub.Exec.{Exec, lift, ◌>>=◌}
use capabilityhub.Draining.{
  Controller, Texts, admit_pin, target_snapshot, advance_target, release_known, register_revision,
  drain_target, register, admit, release, begin_drain, advance, identifier, optional_identifier,
  reason_code,
}
use capabilityhub.Draining.Quiet.{IsQuiet, Keeps}
use capabilityhub.Draining.Graceful.{
  drain_target-IsQuiet, advance_snapshot-IsQuiet, release_known-IsQuiet, register_revision-IsQuiet,
  admit_pin-IsQuiet,
}

-- The controller after a call that does not force.
pub data GracefulCall (lib : Texts) (d : Controller) : Controller → Type 0 where
  registers :
      (coordinate revision : String) → GracefulCall lib d (register lib coordinate revision d).1
  admits :
      (coordinate revision pin_id : String) (cancellable : Bool)
      → GracefulCall lib d (admit lib coordinate revision pin_id cancellable d).1
  releases : (pin_id : String) → GracefulCall lib d (release lib pin_id d).1
  drains :
      (coordinate : String) (revision : Option String) (reason : String)
      → GracefulCall lib d (begin_drain lib coordinate revision reason d).1
  advances :
      (coordinate : String) (revision : Option String) (deadline now : ℕ)
      → GracefulCall lib d (advance lib coordinate revision deadline now d).1

pub data GracefulCalls (lib : Texts) (a : Controller) : Controller → Type 0 where
  here : GracefulCalls lib a a
  next : {b c : Controller} → GracefulCalls lib a b → GracefulCall lib b c → GracefulCalls lib a c

after_lift-IsQuiet :
    {A B : Type 0} (r : Result A) (f : A → Exec Controller B)
    → ((a : A) → Keeps IsQuiet (f a))
    → Keeps IsQuiet (lift r >>= f)
after_lift-IsQuiet (ok a) f h d q = h a d q
after_lift-IsQuiet (raise e) f h d q = q

module _ (lib : Texts) where
  GracefulCall-IsQuiet : {d d' : Controller} → GracefulCall lib d d' → IsQuiet d → IsQuiet d'
  unfolding register admit release begin_drain advance
  GracefulCall-IsQuiet {d} (registers coordinate revision) q =
      after_lift-IsQuiet (identifier lib coordinate)
        (λ c. lift (identifier lib revision) >>= λ r. register_revision lib (c, r))
        (λ c.
          after_lift-IsQuiet (identifier lib revision) (λ r. register_revision lib (c, r))
            (λ r. register_revision-IsQuiet lib (c, r)))
        d q
  GracefulCall-IsQuiet {d} (admits coordinate revision pin_id cancellable) q =
      after_lift-IsQuiet (identifier lib coordinate)
        (λ c. lift (identifier lib revision) >>= λ r.
          lift (identifier lib pin_id) >>= λ p. admit_pin c r p cancellable)
        (λ c.
          after_lift-IsQuiet (identifier lib revision)
            (λ r. lift (identifier lib pin_id) >>= λ p. admit_pin c r p cancellable)
            (λ r.
              after_lift-IsQuiet (identifier lib pin_id) (λ p. admit_pin c r p cancellable)
                (λ p. admit_pin-IsQuiet c r p cancellable)))
        d q
  GracefulCall-IsQuiet {d} (releases pin_id) q =
      after_lift-IsQuiet (identifier lib pin_id) (release_known lib) (release_known-IsQuiet lib) d q
  GracefulCall-IsQuiet {d} (drains coordinate revision reason) q =
      after_lift-IsQuiet (identifier lib coordinate)
        (λ c. lift (optional_identifier lib revision) >>= λ r.
          lift (reason_code reason) >>= λ why. drain_target lib c r why)
        (λ c.
          after_lift-IsQuiet (optional_identifier lib revision)
            (λ r. lift (reason_code reason) >>= λ why. drain_target lib c r why)
            (λ r.
              after_lift-IsQuiet (reason_code reason) (λ why. drain_target lib c r why)
                (drain_target-IsQuiet lib c r)))
        d q
  GracefulCall-IsQuiet {d} (advances coordinate revision deadline now) q =
      after_lift-IsQuiet (identifier lib coordinate)
        (λ c. lift (optional_identifier lib revision) >>= λ r.
          target_snapshot c r >>= advance_target lib c r deadline now)
        (λ c.
          after_lift-IsQuiet (optional_identifier lib revision)
            (λ r. target_snapshot c r >>= advance_target lib c r deadline now)
            (λ r. advance_snapshot-IsQuiet lib c r deadline now))
        d q

  -- Without `force_retire`, from a controller in which no pin holds a retired revision, any calls,
  -- refused ones included, lead to such a controller: draining never retires a revision that an
  -- execution still holds, and nothing is admitted to a retired one.
  pub GracefulCalls-IsQuiet : {d d' : Controller} → GracefulCalls lib d d' → IsQuiet d → IsQuiet d'
  GracefulCalls-IsQuiet here q = q
  GracefulCalls-IsQuiet (next run call) q = GracefulCall-IsQuiet call (GracefulCalls-IsQuiet run q)
