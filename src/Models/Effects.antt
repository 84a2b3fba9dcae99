-- ===== src/Models/Effects.antt =====
-- src/capabilityhub/models.py: what `maximum_side_effect` returns.
use capabilityhub.Base.{arith, ◌≡◌, refl, ◌∙◌, Bool, true, false, List, [], ◌∷◌, ltb, if◌then◌else◌}
use capabilityhub.Models.{
  SideEffect, none, read, reversible_write, irreversible, effect_order, max_from,
  maximum_side_effect,
}

-- `irreversible in es`, and the same of the other effects.
abbrev pub has_irreversible : List SideEffect → Bool
has_irreversible [] = false
has_irreversible (irreversible ∷ es) = true
has_irreversible (_ ∷ es) = has_irreversible es

abbrev pub has_reversible_write : List SideEffect → Bool
has_reversible_write [] = false
has_reversible_write (reversible_write ∷ es) = true
has_reversible_write (_ ∷ es) = has_reversible_write es

abbrev pub has_read : List SideEffect → Bool
has_read [] = false
has_read (read ∷ es) = true
has_read (_ ∷ es) = has_read es

-- The gravest effect of a list, found by looking for each in turn.
abbrev pub gravest : List SideEffect → SideEffect
gravest es =
    if has_irreversible es
    then irreversible
    else if has_reversible_write es
    then reversible_write
    else if has_read es
    then read
    else none

-- Of the first two effects, only the larger counts.
gravest_step :
    (a b : SideEffect) (es : List SideEffect)
    → gravest ((if ltb (effect_order a) (effect_order b) then b else a) ∷ es) ≡ gravest (a ∷ b ∷ es)
gravest_step a b es = ground arith

max_from-gravest :
    (best : SideEffect) (es : List SideEffect) → max_from best es ≡ gravest (best ∷ es)
unfolding max_from
max_from-gravest best [] = ground arith
max_from-gravest best (e ∷ es) =
    max_from-gravest (if ltb (effect_order best) (effect_order e) then e else best) es
    ∙ gravest_step best e es

-- The maximum of the side effects of a manifest is irreversible if one of its operations is, else
-- reversible_write if one of them is, else read if one of them is, and else none, also without any
-- operation.
pub maximum_side_effect-gravest : (es : List SideEffect) → maximum_side_effect es ≡ gravest es
unfolding maximum_side_effect
maximum_side_effect-gravest [] = refl
maximum_side_effect-gravest (e ∷ es) = max_from-gravest e es
