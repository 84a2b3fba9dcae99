-- ===== src/Approvals/Scoped/Apart.antt =====
-- src/capabilityhub/approval_store.py: what the scoped store's statements leave of other scopes' rows.
use capabilityhub.Base.{
  ℕ, String, ◌≡◌, ◌≢◌, refl, sym, ap, ◌∙◌, inl, inr, Bool, [], ◌∷◌, arith, Option-cases,
  if◌then◌else◌,
}
use capabilityhub.Dict.{text_key, pair_key, get, get-put_ne}
use capabilityhub.Dict.Rows.{get-alter_ne}
use capabilityhub.Exec.{Exec, ◌>>=◌}
use capabilityhub.Exec.Steps.{Along, bind-Along, if-Along}
use capabilityhub.Approvals.{ApprovalStatus, pending, approved, denied, consumed, expired}
use capabilityhub.Approvals.Scoped.{
  ScopedRow, ScopedTable, update_row, expire_rows, expire_scope, select_row, insert_row,
  require_pending, require_approved,
}

-- The rows of scopes with another digest are as they were.
unfoldable pub Apart : String → ScopedTable → ScopedTable → Type 0
Apart a d e = (key : String × String) → key.0 ≢ a → get key e ≡ get key d

pub Apart-refl : (a : String) (d : ScopedTable) → Apart a d d
unfolding Apart
Apart-refl a d key other = refl

pub Apart-trans : (a : String) (x y z : ScopedTable) → Apart a x y → Apart a y z → Apart a x z
unfolding Apart
Apart-trans a x y z p q key other = q key other ∙ p key other

pub then_Apart :
    (a : String) {A B : Type 0} (m : Exec ScopedTable A) (f : A → Exec ScopedTable B)
    → Along (Apart a) m
    → ((x : A) → Along (Apart a) (f x))
    → Along (Apart a) (m >>= f)
then_Apart a = bind-Along (Apart a) (Apart-trans a)

pub if_Apart :
    (a : String) {A : Type 0} (c : Bool) (m n : Exec ScopedTable A)
    → Along (Apart a) m
    → Along (Apart a) n
    → Along (Apart a) (if c then m else n)
if_Apart a c m n = if-Along (Apart a) c m n

other_key : (a i : String) (key : String × String) → key.0 ≢ a → key ≢ (a, i)
other_key a i key h e = h (ap (λ x. x.0) e)

pub update_row-Apart :
    (a i : String) (f : ScopedRow → ScopedRow) → Along (Apart a) (update_row (a, i) f)
unfolding Apart
update_row-Apart a i f d key other = get-alter_ne (a, i) key f d (other_key a i key other)

expire_rows_other :
    (a : String) (now : ℕ) (d : ScopedTable) (key : String × String)
    → key.0 ≢ a
    → get key (expire_rows a now d) ≡ get key d
expire_rows_other a now [] key h = refl
expire_rows_other a now ((k, r) ∷ d) key h = elim (pair_key.dec k key) [
  | yes same ↦ let own : k.0 ≢ a = λ e. h (sym (ap (λ x. x.0) same) ∙ e) in ground arith
  | no differs ↦ ground (arith, expire_rows_other a now d key h)
]

pub expire_scope-Apart : (a : String) (now : ℕ) → Along (Apart a) (expire_scope a now)
unfolding Apart
expire_scope-Apart a now d key other = expire_rows_other a now d key other

pub select_row-Apart : (a : String) (key : String × String) → Along (Apart a) (select_row key)
unfolding select_row
select_row-Apart a key d = elim (Option-cases (get key d)) [
  | inl gone ↦ rw (gone, select_row) (Apart-refl a d)
  | inr (r, there) ↦ rw (there, select_row) (Apart-refl a d)
]

pub insert_row-Apart : (a i : String) (r : ScopedRow) → Along (Apart a) (insert_row (a, i) r)
unfolding insert_row Apart
insert_row-Apart a i r d key other = elim (Option-cases (get (a, i) d)) [
  | inl gone ↦ rw (gone, insert_row) (get-put_ne (a, i) key r d (other_key a i key other))
  | inr (old, there) ↦ rw (there, insert_row) refl
]

pub require_pending-Apart : (a : String) (s : ApprovalStatus) → Along (Apart a) (require_pending s)
unfolding require_pending
require_pending-Apart a pending = Apart-refl a
require_pending-Apart a approved = Apart-refl a
require_pending-Apart a denied = Apart-refl a
require_pending-Apart a consumed = Apart-refl a
require_pending-Apart a expired = Apart-refl a

pub require_approved-Apart :
    (a : String) (s : ApprovalStatus) → Along (Apart a) (require_approved s)
unfolding require_approved
require_approved-Apart a pending = Apart-refl a
require_approved-Apart a approved = Apart-refl a
require_approved-Apart a denied = Apart-refl a
require_approved-Apart a consumed = Apart-refl a
require_approved-Apart a expired = Apart-refl a
