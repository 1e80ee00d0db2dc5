-- ===== src/Prelude/Int.antt =====
-- Integers: `negsuc n` is -(n + 1).
use Prim.Native.Nat.{ℕ, suc}
use mathlib.Core.Bool.{Bool, false, ◌&&◌}
use cnp_v1_starter_kit.Prelude.Tests.{leb, ◌==◌}

pub data ℤ : Type 0 where
  pos : ℕ → ℤ
  negsuc : ℕ → ℤ

abbrev pub pos_part : ℤ → ℕ
pos_part (pos n) = n
pos_part (negsuc n) = 0

abbrev pub neg_part : ℤ → ℕ
neg_part (pos n) = 0
neg_part (negsuc n) = suc n

-- `lo <= i <= hi`, for natural bounds.
abbrev pub is_between : ℕ → ℕ → ℤ → Bool
is_between lo hi (pos n) = leb lo n && leb n hi
is_between lo hi (negsuc n) = false

abbrev pub is_zero : ℤ → Bool
is_zero (pos n) = n == 0
is_zero (negsuc n) = false
