-- ===== src/Base/Int.antt =====
-- Signed integers over the native numbers, with the order of `i64`.
use Prim.Native.Nat.{ℕ, suc, ◌+◌, compare, Ordering}
use native.Mathlib.Omega.{arith}
use audio_down_core.Base.Order.{IsLawful}

-- `negsuc n` is -(n + 1).
pub data ℤ : Type 0 where
  pos : ℕ → ℤ
  negsuc : ℕ → ℤ

abbrev pub pos_part : ℤ → ℕ
pos_part (pos n) = n
pos_part (negsuc n) = 0

abbrev pub neg_part : ℤ → ℕ
neg_part (pos n) = 0
neg_part (negsuc n) = suc n

-- `i64::cmp`: a - b against 0.
abbrev pub int_cmp : ℤ → ℤ → Ordering
int_cmp a b = compare (pos_part a + neg_part b) (pos_part b + neg_part a)

pub int_cmp-IsLawful : IsLawful int_cmp
int_cmp-IsLawful = record {
  swapped = λ a b. ground arith;
  congruent = λ a b c h. ground arith;
  lt_trans = λ a b c h k. ground arith;
}
