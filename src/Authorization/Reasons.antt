-- ===== src/Authorization/Reasons.antt =====
-- src/capabilityhub/authorization.py: lists of reasons that come out empty.
use capabilityhub.Base.{◌≡◌, refl, Bool, true, false, List, [], ◌∷◌, ◌++◌, arith}
use capabilityhub.Authorization.{Reason, place_reason, ordered_reasons, reason_if, no_reasons}

place_reason_some : (r : Reason) (rs : List Reason) → no_reasons (place_reason r rs) ≡ false
unfolding place_reason
place_reason_some r [] = refl
place_reason_some r (q ∷ rs) = ground arith

pub ordered_none : (rs : List Reason) → no_reasons (ordered_reasons rs) ≡ true → rs ≡ []
unfolding ordered_reasons
ordered_none [] e = refl
ordered_none (r ∷ rs) e = absurd (clash (place_reason_some r (ordered_reasons rs)) e)
  where
    clash : {b : Bool} → b ≡ false → b ≡ true → ⊥
    clash f t = cc

pub append_none : (xs ys : List Reason) → xs ++ ys ≡ [] → (xs ≡ []) × (ys ≡ [])
append_none [] ys e = (refl, e)
append_none (x ∷ xs) ys e = absurd (cc)

pub reason_if_none : (b : Bool) (r : Reason) → reason_if b r ≡ [] → b ≡ false
reason_if_none false r e = refl
reason_if_none true r e = absurd (cc)
