-- ===== src/Prelude/Int.antt =====
-- The signed integers of 64 bits and less, as far as they are compared.
use Prim.Native.Nat.{ℕ}
use mathlib.Core.Bool.{Bool, true, false}
use defradg.Prelude.Tests.{ltb, leb, ◌==◌}

-- `negsuc n` is -(n + 1).
pub data ℤ : Type 0 where
  negsuc : ℕ → ℤ
  pos : ℕ → ℤ

abbrev pub int_lt : ℤ → ℤ → Bool
int_lt (negsuc m) (negsuc n) = ltb n m
int_lt (negsuc m) (pos n) = true
int_lt (pos m) (negsuc n) = false
int_lt (pos m) (pos n) = ltb m n

abbrev pub int_le : ℤ → ℤ → Bool
int_le (negsuc m) (negsuc n) = leb n m
int_le (negsuc m) (pos n) = true
int_le (pos m) (negsuc n) = false
int_le (pos m) (pos n) = leb m n

abbrev pub int_eq : ℤ → ℤ → Bool
int_eq (negsuc m) (negsuc n) = m == n
int_eq (negsuc m) (pos n) = false
int_eq (pos m) (negsuc n) = false
int_eq (pos m) (pos n) = m == n
