-- ===== src/Common/Fixed.antt =====
-- Fixed-point numbers with six decimals, a concrete type in which the code can be run.
use Prim.Native.Nat.{zero, suc, ◌*◌, ◌/◌, ◌^◌}
use mathlib.Core.Bool.{not}
use native.Mathlib.Omega.{arith}
use challenge_8a2ffd.Common.Int.{ℤ, pos, negsuc, ◌+ℤ◌, ◌-ℤ◌, ◌*ℤ◌, ◌/ℤ◌, ltb_ℤ}
use challenge_8a2ffd.Common.Double.{Double, IsOrdered, IsExact}

abbrev pub Fixed : Type 0
Fixed = ℤ

-- a / b, with a division by zero answered by the largest value, as 1 / 0.0 is infinite.
abbrev div_fixed : ℤ → ℤ → ℤ
div_fixed a (pos zero) = pos (2 ^ 200)
div_fixed a (pos (suc n)) = a *ℤ pos 1000000 /ℤ suc n
div_fixed a (negsuc n) = pos 0 -ℤ (a *ℤ pos 1000000 /ℤ suc n)

instance abbrev pub fixed_double : Double Fixed
fixed_double = record {
  lit = λ m n. pos (m * 1000000 / n);
  of_ℤ = λ a. a *ℤ pos 1000000;
  of_ℕ = λ n. pos (n * 1000000);
  add = λ a b. a +ℤ b;
  sub = λ a b. a -ℤ b;
  mul = λ a b. a *ℤ b /ℤ 1000000;
  div = div_fixed;
  lt = ltb_ℤ;
  le = λ a b. not (ltb_ℤ b a);
}

pub Fixed-IsOrdered : IsOrdered Fixed
Fixed-IsOrdered = record {
  lt_irrefl = λ x. ground arith;
  lt_trans = λ x y z h k. ground arith;
  lt_asymm = λ x y h. ground arith;
  le_of_lt = λ x y h. ground arith;
  not_lt_of_le = λ x y h. ground arith;
}

pub Fixed-IsExact : IsExact Fixed
unfolding ◌*ℤ◌ ◌/ℤ◌
Fixed-IsExact = record {
  lt-of_ℕ = λ m n h k. ground arith;
  lit-one = λ m h. ground arith;
  mul-of_ℕ = λ m n h. ground arith;
}
