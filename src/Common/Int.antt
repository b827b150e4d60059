-- ===== src/Common/Int.antt =====
-- Signed integers (`i64`) over the native numbers, as a magnitude on either side of zero.
use Prim.Native.Nat.{ℕ, suc, ◌-◌}
use konstantin.Common.Tests.{leb, ltb, if◌then◌else◌}

-- `negsuc n` is -(n + 1).
pub data ℤ : Type 0 where
  pos : ℕ → ℤ
  negsuc : ℕ → ℤ

-- a - b, as an integer.
abbrev pub sub_ℕ : ℕ → ℕ → ℤ
sub_ℕ a b = if leb b a then pos (a - b) else negsuc (b - a - 1)

abbrev pub neg_ℤ : ℤ → ℤ
neg_ℤ (pos n) = sub_ℕ 0 n
neg_ℤ (negsuc n) = pos (suc n)

-- The least integer of 1 and above that is at least the argument, as a number.
abbrev pub max_one : ℤ → ℕ
max_one (pos n) = if ltb n 1 then 1 else n
max_one (negsuc n) = 1
