-- ===== src/Reasoning/Tiers.antt =====
-- src/capabilityhub/reasoning.py: the order of the tiers, and those that a caller supports.
use capabilityhub.Base.{
  ℕ, Bool, true, false, Option, none, some, List, [], ◌∷◌, ltb, leb, ◌==◌, if◌then◌else◌,
}
use capabilityhub.Models.{SideEffect, read, reversible_write, irreversible}
use capabilityhub.Models.Loads.{ReasoningTier, low, medium, high}

-- `_TIER_ORDER`
abbrev pub tier_order : ReasoningTier → ℕ
tier_order low = 0
tier_order medium = 1
tier_order high = 2

-- `_RISK_FLOOR`
abbrev pub risk_floor : SideEffect → ReasoningTier
risk_floor SideEffect.none = low
risk_floor read = low
risk_floor reversible_write = medium
risk_floor irreversible = high

-- `max` of two with the key `_TIER_ORDER`: of equals the first.
abbrev pub max_tier : ReasoningTier → ReasoningTier → ReasoningTier
max_tier a b = if ltb (tier_order a) (tier_order b) then b else a

-- A tier put into its place among distinct tiers in order.
unfoldable pub insert_tier : ReasoningTier → List ReasoningTier → List ReasoningTier
insert_tier t [] = t ∷ []
insert_tier t (x ∷ xs) =
    let rest = insert_tier t xs in
    if tier_order t == tier_order x
    then x ∷ xs
    else if ltb (tier_order t) (tier_order x)
    then t ∷ x ∷ xs
    else x ∷ rest

-- `sorted` of the set of the values.
unfoldable pub sorted_unique : List ReasoningTier → List ReasoningTier
unfolding insert_tier
sorted_unique [] = []
sorted_unique (t ∷ ts) = insert_tier t (sorted_unique ts)

-- `_normalize_eligible`
unfoldable pub normalize_eligible : Option (List ReasoningTier) → List ReasoningTier
unfolding sorted_unique
normalize_eligible none = low ∷ medium ∷ high ∷ []
normalize_eligible (some values) = sorted_unique values

-- The tiers that are not below the minimum.
unfoldable pub candidates_from : ReasoningTier → List ReasoningTier → List ReasoningTier
candidates_from minimum [] = []
candidates_from minimum (t ∷ ts) =
    let rest = candidates_from minimum ts in
    if leb (tier_order minimum) (tier_order t) then t ∷ rest else rest

-- `tier in candidates`
unfoldable pub has_tier : ReasoningTier → List ReasoningTier → Bool
has_tier t [] = false
has_tier t (x ∷ xs) =
    let rest = has_tier t xs in if tier_order t == tier_order x then true else rest

-- `next((tier for tier in candidates if …), None)`
unfoldable pub next_higher : ReasoningTier → List ReasoningTier → Option ReasoningTier
next_higher current [] = none
next_higher current (t ∷ ts) =
    let rest = next_higher current ts in
    if ltb (tier_order current) (tier_order t) then some t else rest
