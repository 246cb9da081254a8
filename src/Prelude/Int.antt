-- ===== src/Prelude/Int.antt =====
-- Signed 64-bit columns: an integer with the steps by one that the program takes, and the cast to
-- 32 bits.
use Prim.Native.Nat.{ℕ, zero, suc, ◌+◌, ◌-◌, ◌%◌, ◌^◌}
use mathlib.Core.Path.{◌≡◌}
use native.Mathlib.Omega.{arith}

-- `negsuc n` is -(n + 1).
pub data ℤ : Type 0 where
  pos : ℕ → ℤ
  negsuc : ℕ → ℤ

abbrev pub inc : ℤ → ℤ
inc (pos n) = pos (n + 1)
inc (negsuc zero) = pos 0
inc (negsuc (suc n)) = negsuc n

abbrev pub dec : ℤ → ℤ
dec (pos zero) = negsuc 0
dec (pos (suc n)) = pos n
dec (negsuc n) = negsuc (n + 1)

-- `as u32`: the low 32 bits of the two's complement.
abbrev pub as_u32 : ℤ → ℕ
as_u32 (pos n) = n % 2 ^ 32
as_u32 (negsuc n) = 2 ^ 32 - 1 - n % 2 ^ 32

pub dec-pos : (n m : ℕ) → m + 1 ≡ n → dec (pos n) ≡ pos m
dec-pos zero m h = absurd (omega arith)
dec-pos (suc n) m h = let e : n ≡ m = omega arith in rw e
