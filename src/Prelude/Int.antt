-- ===== src/Prelude/Int.antt =====
-- Go's int where a value may be negative: limits and estimates that a host supplies.
use Prim.Native.Nat.{ℕ, ◌≤◌, ◌+◌, ◌-◌}
use mathlib.Core.Bool.{Bool, true, false}
use memax_go_agent_sdk.Prelude.Tests.{ltb, leb, if◌then◌else◌}

-- `negsuc n` is -(n + 1).
pub data ℤ : Type 0 where
  pos : ℕ → ℤ
  negsuc : ℕ → ℤ

-- a < b
abbrev pub lt_int : ℤ → ℤ → Bool
lt_int (pos a) (pos b) = ltb a b
lt_int (pos a) (negsuc b) = false
lt_int (negsuc a) (pos b) = true
lt_int (negsuc a) (negsuc b) = ltb b a

-- The value where it is positive, and 0 elsewhere: `if x <= 0` is a test of this for 0.
abbrev pub positive_part : ℤ → ℕ
positive_part (pos n) = n
positive_part (negsuc n) = 0

abbrev pub is_positive : ℤ → Bool
is_positive i = lt_int (pos 0) i

abbrev pub ◌≤ℤ◌ : ℤ → ℤ → Type 0

infix 50 ◌≤ℤ◌
pos a ≤ℤ pos b = a ≤ b
pos a ≤ℤ negsuc b = ⊥
negsuc a ≤ℤ pos b = Unit
negsuc a ≤ℤ negsuc b = b ≤ a

abbrev sub_nat : ℕ → ℕ → ℤ
sub_nat a b = if leb b a then pos (a - b) else negsuc (b - a - 1)

abbrev pub add_int : ℤ → ℤ → ℤ
add_int (pos a) (pos b) = pos (a + b)
add_int (pos a) (negsuc b) = sub_nat a (b + 1)
add_int (negsuc a) (pos b) = sub_nat b (a + 1)
add_int (negsuc a) (negsuc b) = negsuc (a + b + 1)
