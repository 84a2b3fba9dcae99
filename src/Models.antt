-- ===== src/Models.antt =====
-- src/capabilityhub/models.py: the enumerations of the domain, and the order of side effects.
pub mod Manifests
pub mod Handles
pub mod Loads
pub mod Effects
mod Tests
use capabilityhub.Base.{ℕ, List, [], ◌∷◌, ltb, if◌then◌else◌}

pub data CapabilityKind : Type 0 where
  skill mcp cli api rag : CapabilityKind

pub data OperationType : Type 0 where
  expand execute retrieve : OperationType

pub data SideEffect : Type 0 where
  none read reversible_write irreversible : SideEffect

-- The `order` table of `maximum_side_effect`.
abbrev pub effect_order : SideEffect → ℕ
effect_order none = 0
effect_order read = 1
effect_order reversible_write = 2
effect_order irreversible = 3

-- Python's `max` keeps the first of the largest.
unfoldable pub max_from : SideEffect → List SideEffect → SideEffect
max_from best [] = best
max_from best (e ∷ es) = max_from (if ltb (effect_order best) (effect_order e) then e else best) es

-- `maximum_side_effect`, over the side effects of the operations.
unfoldable pub maximum_side_effect : List SideEffect → SideEffect
unfolding max_from
maximum_side_effect [] = none
maximum_side_effect (e ∷ es) = max_from e es
