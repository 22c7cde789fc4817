-- ===== src/Base/Int.antt =====
-- Go's `int` and `int64`: a counter is the 64-bit pattern of its value, with the wrap-around of
-- `++` written out; a quota, which may be negative, is an integer.
use Prim.Native.Nat.{ℕ, ◌+◌, ◌%◌, ◌^◌, ◌<◌}
use mathlib.Core.Path.{◌≡◌}
use mathlib.Core.Bool.{Bool, false, ◌&&◌}
use native.Mathlib.Omega.{arith}
use chainmesh.Base.Tests.{ltb, leb}

-- n++ on a 64-bit pattern
unfoldable pub int_inc : ℕ → ℕ
int_inc n = (n + 1) % 2 ^ 64

-- n >= k for a constant k, where the pattern n is read as a signed number
unfoldable pub int_ge : ℕ → ℕ → Bool
int_ge n k = ltb n (2 ^ 63) && leb k n

pub int_inc_lem : (n : ℕ) → n < 2 ^ 63 → int_inc n ≡ n + 1
unfolding int_inc
int_inc_lem n h = omega arith

pub int_ge_lem : (n k : ℕ) → n < 2 ^ 63 → int_ge n k ≡ leb k n
unfolding int_ge
int_ge_lem n k h = ground arith

-- `negsuc n` is -(n + 1).
pub data ℤ : Type 0 where
  pos : ℕ → ℤ
  negsuc : ℕ → ℤ

-- q > 0
abbrev pub is_pos : ℤ → Bool
is_pos (pos n) = ltb 0 n
is_pos (negsuc n) = false

-- The value of an integer that is not negative; it is read only after `is_pos`.
abbrev pub pos_part : ℤ → ℕ
pos_part (pos n) = n
pos_part (negsuc n) = 0
