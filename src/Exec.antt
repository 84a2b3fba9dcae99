-- ===== src/Exec.antt =====
-- State and exceptions. A raise keeps the state that was written before it.
pub mod Steps
use capabilityhub.Errors.{Exc}
use capabilityhub.Result.{Result, ok, raise}

abbrev pub Exec {ℓ κ} : Type ℓ → Type κ → Type (ℓ ⊔ κ)
Exec S A = S → Result A × S

module _ {ℓ κ} {S : Type ℓ} {A : Type κ} where
  abbrev pub pure : A → Exec S A
  pure a s = (ok a, s)

  abbrev pub throw : Exc → Exec S A
  throw e s = (raise e, s)

  abbrev pub lift : Result A → Exec S A
  lift r s = (r, s)

abbrev pub gets {ℓ κ} : {S : Type ℓ} {A : Type κ} → (S → A) → Exec S A
gets f s = (ok (f s), s)

abbrev pub modify {ℓ} : {S : Type ℓ} → (S → S) → Exec S (Unit {0})
modify f s = (ok tt, f s)

infixl 5 ◌>>=◌ ◌>>◌
abbrev pub ◌>>=◌ {ℓ κ μ} :
    {S : Type ℓ} {A : Type κ} {B : Type μ} → Exec S A → (A → Exec S B) → Exec S B
◌>>=◌ m f s = let (r, s') = m s in elim r [ ok a ↦ f a s' | raise e ↦ (raise e, s') ]

abbrev pub ◌>>◌ {ℓ κ μ} : {S : Type ℓ} {A : Type κ} {B : Type μ} → Exec S A → Exec S B → Exec S B
m >> k = m >>= λ _. k

-- `with connection`, over SQLite: an exception takes back what the block has written.
abbrev pub transaction {ℓ κ} : {S : Type ℓ} {A : Type κ} → Exec S A → Exec S A
transaction block s = let (r, t) = block s in elim r [ ok a ↦ (ok a, t) | raise e ↦ (raise e, s) ]

-- `try: m finally: cleanup`: an exception of the cleanup takes the place of what `m` gave.
abbrev pub finally {ℓ κ} : {S : Type ℓ} {A : Type κ} → Exec S A → Exec S (Unit {0}) → Exec S A
finally m cleanup s =
    let (r, t) = m s in let (c, u) = cleanup t in elim c [ ok _ ↦ (r, u) | raise e ↦ (raise e, u) ]
