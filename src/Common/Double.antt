-- ===== src/Common/Double.antt =====
-- What the program does with a `double`: literals, conversions, the arithmetic and the comparisons
-- of IEEE 754. A literal such as 0.8 is `lit 8 10`; `a > b` is `lt b a`, and `a >= b` is `le b a`.
use mathlib.Core.Path.{◌≡◌}
use mathlib.Core.Bool.{Bool, true, false}
use Prim.Native.Nat.{ℕ, ◌*◌, ◌<◌, ◌^◌}
use challenge_8a2ffd.Common.Tests.{ltb}
use challenge_8a2ffd.Common.Int.{ℤ}

pub record Double (D : Type 0) : Type 0 where
  pub lit : ℕ → ℕ → D
  pub of_ℤ : ℤ → D
  pub of_ℕ : ℕ → D
  pub add : D → D → D
  pub sub : D → D → D
  pub mul : D → D → D
  pub div : D → D → D
  pub lt : D → D → Bool
  pub le : D → D → Bool

-- The laws of comparison. NaN is the value that is not `<=` itself, and it compares with nothing.
pub record IsOrdered (D : Type 0) ⦃d : Double D⦄ : Type 0 where
  pub lt_irrefl : (x : D) → d.lt x x ≡ false
  pub lt_trans : (x y z : D) → d.lt x y ≡ true → d.lt y z ≡ true → d.lt x z ≡ true
  pub lt_asymm : (x y : D) → d.lt x y ≡ true → d.lt y x ≡ false
  pub le_of_lt : (x y : D) → d.lt x y ≡ true → d.le x y ≡ true
  pub not_lt_of_le : (x y : D) → d.le x y ≡ true → d.lt y x ≡ false

-- Integers below 2 ^ 53 convert exactly, also as literals, and so do their products.
pub record IsExact (D : Type 0) ⦃d : Double D⦄ : Type 0 where
  pub lt-of_ℕ : (m n : ℕ) → m < 2 ^ 53 → n < 2 ^ 53 → d.lt (d.of_ℕ m) (d.of_ℕ n) ≡ ltb m n
  pub lit-one : (m : ℕ) → m < 2 ^ 53 → d.lit m 1 ≡ d.of_ℕ m
  pub mul-of_ℕ : (m n : ℕ) → m * n < 2 ^ 53 → d.mul (d.of_ℕ m) (d.of_ℕ n) ≡ d.of_ℕ (m * n)
