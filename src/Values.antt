-- ===== src/Values.antt =====
-- The Python objects that a caller may pass where the code asks for an integer.
use capabilityhub.Base.{ℕ, Bool, Option, none, some}

-- `negative n` is the integer -(n + 1).
pub data Value : Type 0 where
  integer : ℕ → Value
  negative : ℕ → Value
  boolean : Bool → Value
  other : Value

-- `not (isinstance(value, bool) or not isinstance(value, int) or value < 0)`, with the integer.
abbrev pub as_count : Value → Option ℕ
as_count (integer n) = some n
as_count (negative n) = none
as_count (boolean b) = none
as_count other = none
