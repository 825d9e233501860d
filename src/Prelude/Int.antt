-- ===== src/Prelude/Int.antt =====
-- Signed integers over the native numbers, under the library's names (its ℤ stands on the unary ℕ).
use Prim.Native.Nat.{ℕ, suc, ◌+◌, ◌-◌, ◌<◌}
use mathlib.Core.Bool.{Bool}
use dd_trace_rs.Prelude.Tests.{ltb, if◌then◌else◌}

-- `negsuc n` is -(n + 1).
pub data ℤ : Type 0 where
  pos : ℕ → ℤ
  negsuc : ℕ → ℤ

abbrev pub pos_part : ℤ → ℕ
pos_part (pos n) = n
pos_part (negsuc n) = 0

abbrev neg_part : ℤ → ℕ
neg_part (pos n) = 0
neg_part (negsuc n) = suc n

-- The range of a two's complement integer: -low ≤ z < high.
abbrev pub InRange : ℕ → ℕ → ℤ → Type 0
InRange low high (pos n) = n < high
InRange low high (negsuc n) = n < low

abbrev pub ltb_ℤ : ℤ → ℤ → Bool
ltb_ℤ a b = ltb (pos_part a + neg_part b) (pos_part b + neg_part a)

-- z + n
abbrev pub add_ℕ : ℤ → ℕ → ℤ
add_ℕ (pos m) n = pos (m + n)
add_ℕ (negsuc m) n = if ltb m n then pos (n - m - 1) else negsuc (m - n)

-- z - 1
abbrev pub pred_ℤ : ℤ → ℤ
pred_ℤ (pos m) = if ltb 0 m then pos (m - 1) else negsuc 0
pred_ℤ (negsuc m) = negsuc (m + 1)

-- n - m
unfoldable pub from_difference : ℕ → ℕ → ℤ
from_difference n m = if ltb n m then negsuc (m - n - 1) else pos (n - m)

-- a - b
unfoldable pub sub_ℤ : ℤ → ℤ → ℤ
unfolding from_difference
sub_ℤ a b = from_difference (pos_part a + neg_part b) (neg_part a + pos_part b)
