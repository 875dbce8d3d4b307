-- ===== src/Base/Int.antt =====
-- Signed integers, as priorities, given numbers and the jitter of a delay need them.
use Prim.Native.Nat.{ℕ, ◌+◌, ◌-◌}
use mathlib.Core.Bool.{Bool, true, false}
use moventra_tms.Base.Tests.{ltb, if◌then◌else◌}

-- `negsuc n` is -(n + 1).
pub data ℤ : Type 0 where
  pos : ℕ → ℤ
  negsuc : ℕ → ℤ

-- a < b
abbrev pub lt_ℤ : ℤ → ℤ → Bool
lt_ℤ (pos a) (pos b) = ltb a b
lt_ℤ (pos a) (negsuc b) = false
lt_ℤ (negsuc a) (pos b) = true
lt_ℤ (negsuc a) (negsuc b) = ltb b a

-- a + b
abbrev pub add_ℤ : ℕ → ℤ → ℤ
add_ℤ a (pos b) = pos (a + b)
add_ℤ a (negsuc b) = if ltb b a then pos (a - b - 1) else negsuc (b - a)

abbrev pub min_ℤ : ℕ → ℤ → ℤ
min_ℤ a (pos b) = pos (if ltb a b then a else b)
min_ℤ a (negsuc b) = negsuc b

abbrev pub pos_part : ℤ → ℕ
pos_part (pos n) = n
pos_part (negsuc n) = 0

-- What `Number(value)` gives: an integer, or a fraction, an infinity or NaN.
pub data Number : Type 0 where
  integer : ℤ → Number
  no_integer : Number
