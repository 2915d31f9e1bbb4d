-- ===== src/Base/Int.antt =====
-- Signed integers for Go's int and int64, with the comparisons that the program makes. Arithmetic
-- on them, and so overflow, does not occur in the modelled code.
use Prim.Native.Nat.{ℕ}
use mathlib.Core.Path.{◌≡◌}
use mathlib.Core.Bool.{Bool, true, false}
use native.Mathlib.Omega.{arith}
use fileserver_mcp.Base.Tests.{ltb, leb}

-- `negsuc n` is -(n + 1).
pub data ℤ : Type 0 where
  pos : ℕ → ℤ
  negsuc : ℕ → ℤ

-- 0 < x
abbrev pub is_positive : ℤ → Bool
is_positive (pos n) = ltb 0 n
is_positive (negsuc n) = false

-- n > x
abbrev pub exceeds : ℕ → ℤ → Bool
exceeds n (pos m) = ltb m n
exceeds n (negsuc m) = true

-- n >= x
abbrev pub reaches : ℕ → ℤ → Bool
reaches n (pos m) = leb m n
reaches n (negsuc m) = true

-- x > y
abbrev pub gtb_ℤ : ℤ → ℤ → Bool
gtb_ℤ (pos n) y = exceeds n y
gtb_ℤ (negsuc n) (pos m) = false
gtb_ℤ (negsuc n) (negsuc m) = ltb n m

-- Nothing is within every positive limit.
pub exceeds-zero : (limit : ℤ) → is_positive limit ≡ true → exceeds 0 limit ≡ false
exceeds-zero (pos m) h = ground arith
exceeds-zero (negsuc m) h = cc
