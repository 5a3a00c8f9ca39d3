-- ===== src/Common/Int.antt =====
-- Signed integers over the native numbers; the library's ℤ stands on the unary ℕ.
use Prim.Native.Nat.{ℕ, suc, ◌+◌, ◌-◌, compare, Ordering}
use rapid_db.Common.Tests.{leb, if◌then◌else◌}

-- `negsuc n` is -(n + 1).
pub data ℤ : Type 0 where
  pos : ℕ → ℤ
  negsuc : ℕ → ℤ

abbrev pub pos_part : ℤ → ℕ
pos_part (pos n) = n
pos_part (negsuc n) = 0

abbrev pub neg_part : ℤ → ℕ
neg_part (pos n) = 0
neg_part (negsuc n) = suc n

-- a - b, as an integer.
abbrev pub sub_ℕ : ℕ → ℕ → ℤ
sub_ℕ a b = if leb b a then pos (a - b) else negsuc (b - a - 1)

-- How two integers compare, and how an integer compares with 0.
abbrev pub compare_ℤ : ℤ → ℤ → Ordering
compare_ℤ a b = compare (pos_part a + neg_part b) (pos_part b + neg_part a)

abbrev pub sign : ℤ → Ordering
sign (pos n) = compare n 0
sign (negsuc n) = Ordering.lt
