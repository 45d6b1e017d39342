-- ===== src/Prelude/Int.antt =====
-- Go's signed integers, as far as the program tests them. `negsuc n` is -(n + 1).
use Prim.Native.Nat.{ℕ, zero, suc}
use mathlib.Core.Path.{◌≡◌, ap}
use mathlib.Core.Bool.{Bool, true, false}
use native.Mathlib.Omega.{arith}
use dra_linux_networks.Prelude.Tests.{eqb}

pub data ℤ : Type 0 where
  pos : ℕ → ℤ
  negsuc : ℕ → ℤ

-- `x > 0`
abbrev pub is_positive : ℤ → Bool
is_positive (pos zero) = false
is_positive (pos (suc n)) = true
is_positive (negsuc n) = false

-- `x == 0`
abbrev pub is_zero : ℤ → Bool
is_zero (pos zero) = true
is_zero (pos (suc n)) = false
is_zero (negsuc n) = false

-- `x == y`
abbrev pub eq_int : ℤ → ℤ → Bool
eq_int (pos m) (pos n) = eqb m n
eq_int (negsuc m) (negsuc n) = eqb m n
eq_int (pos m) (negsuc n) = false
eq_int (negsuc m) (pos n) = false

pub eq_int_sound : (x y : ℤ) → eq_int x y ≡ true → x ≡ y
eq_int_sound (pos m) (pos n) h = ap pos (ground arith)
eq_int_sound (negsuc m) (negsuc n) h = ap negsuc (ground arith)
eq_int_sound (pos m) (negsuc n) h = absurd (cc)
eq_int_sound (negsuc m) (pos n) h = absurd (cc)
