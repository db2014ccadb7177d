-- ===== src/Prelude/Int.antt =====
-- Signed machine integers (`i32`) as integers over the native numbers.
use Prim.Native.Nat.{ℕ, suc, ◌+◌, compare, Ordering}
use mathlib.Core.Bool.{Bool}
use kun.Prelude.Tests.{leb}

-- `negsuc n` is -(n + 1).
pub data ℤ : Type 0 where
  pos : ℕ → ℤ
  negsuc : ℕ → ℤ

abbrev pub pos_part : ℤ → ℕ
pos_part (pos n) = n
pos_part (negsuc n) = 0

abbrev pub neg_part : ℤ → ℕ
neg_part (pos n) = 0
neg_part (negsuc n) = suc n

-- `a.cmp(&b)` on signed integers.
abbrev pub compare_int : ℤ → ℤ → Ordering
compare_int a b = compare (pos_part a + neg_part b) (pos_part b + neg_part a)

abbrev pub leb_int : ℤ → ℤ → Bool
leb_int a b = leb (pos_part a + neg_part b) (pos_part b + neg_part a)
