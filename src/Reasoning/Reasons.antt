-- ===== src/Reasoning/Reasons.antt =====
-- src/capabilityhub/reasoning.py: the texts that a decision gives as its reasons.
use Prim.Native.Char.{code}
use capabilityhub.Base.{
  ℕ, String, Bool, true, false, ◌&&◌, ◌||◌, List, [], ◌∷◌, ◌++◌, ltb, leb, ◌==◌, if◌then◌else◌, ite,
  text_dec, append,
}
use capabilityhub.Models.Loads.{ReasoningTier, low, medium, high}
use capabilityhub.Reasoning.Tiers.{tier_order}

-- `[a-z0-9]`
abbrev pub is_word : ℕ → Bool
is_word c = leb 97 c && leb c 122 || leb 48 c && leb c 57

-- `re.sub(r"[^a-z0-9]+", "_", …)`, in a run of other characters or not.
unfoldable pub replace_runs : Bool → String → String
replace_runs in_run String.[] = ""
replace_runs in_run (String.◌∷◌ c s) =
    let kept = String.◌∷◌ c (replace_runs false s) in
    let gone = replace_runs true s in
    if is_word (code c) then kept else if in_run then gone else append "_" gone

-- `lstrip("_")`
unfoldable pub strip_left : String → String
strip_left String.[] = ""
strip_left (String.◌∷◌ c s) =
    let rest = strip_left s in if code c == 95 then rest else String.◌∷◌ c s

-- `rstrip("_")`
unfoldable pub strip_right : String → String
strip_right String.[] = ""
strip_right (String.◌∷◌ c s) =
    let rest = strip_right s in
    if code c == 95 && ite (text_dec rest "") true false then "" else String.◌∷◌ c rest

-- `_reason_code`, of the text that is stripped and in lower case.
unfoldable pub reason_code : (String → String) → String → String
unfolding replace_runs strip_left strip_right
reason_code strip_lower reason =
    let normalized = strip_right (strip_left (replace_runs false (strip_lower reason))) in
    ite (text_dec normalized "") "unspecified" normalized

-- `tier.value`
abbrev pub tier_value : ReasoningTier → String
tier_value low = "low"
tier_value medium = "medium"
tier_value high = "high"

-- One reason of the floors: none for the lowest tier.
abbrev pub floor_reason : String → ReasoningTier → List String
floor_reason prefix tier =
    if ltb (tier_order low) (tier_order tier) then append prefix (tier_value tier) ∷ [] else []

unfoldable pub floor_reasons : ReasoningTier → ReasoningTier → List String
floor_reasons risk policy = floor_reason "risk_floor:" risk ++ floor_reason "policy_floor:" policy
