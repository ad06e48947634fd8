-- ===== src/Sharding/Decimal.antt =====
-- The decimal digits of a shard's number can be read back.
use native.Mathlib.Nat.{pow-suc}
use challenge_8a2ffd.Common.{
  ℕ, zero, suc, ◌+◌, ◌-◌, ◌*◌, ◌/◌, ◌%◌, ◌^◌, ◌<◌, ◌≡◌, refl, ◌∙◌, inl, inr, [], ◌∷◌, ◌++◌, arith,
  ltb, Bool-cases,
}
use challenge_8a2ffd.Sharding.Hash.{Bytes, decimal, to_string}

-- The number that digits are read as, after those for `n`.
abbrev pub read_from : ℕ → Bytes → ℕ
read_from n [] = n
read_from n (byte ∷ bytes) = read_from (n * 10 + (byte - 48)) bytes

abbrev pub read_decimal : Bytes → ℕ
read_decimal bytes = read_from 0 bytes

read_from-append :
    (n : ℕ) (k : Bytes) (byte : ℕ)
    → read_from n (k ++ (byte ∷ [])) ≡ read_from n k * 10 + (byte - 48)
read_from-append n [] byte = refl
read_from-append n (b ∷ k) byte = read_from-append (n * 10 + (b - 48)) k byte

read_decimal-decimal : (fuel n : ℕ) → n < 10 ^ fuel → 0 < fuel → read_decimal (decimal fuel n) ≡ n
unfolding decimal
read_decimal-decimal zero n h p = absurd (omega arith)
read_decimal-decimal (suc fuel) n h p = elim (Bool-cases (ltb n 10)) [
  | inl t ↦ rw t (omega arith)
  | inr t ↦
      let large : 10 < suc n = ground arith in
      let power = pow-suc 10 fuel in
      let more : 0 < fuel = positive fuel n h large in
      let rest = read_decimal-decimal fuel (n / 10) (omega arith) more in
      rw t (read_from-append 0 (decimal fuel (n / 10)) (48 + n % 10) ∙ omega arith)
]
  where
    positive : (fuel n : ℕ) → n < 10 ^ suc fuel → 10 < suc n → 0 < fuel
    positive zero n h l = absurd (omega arith)
    positive (suc fuel) n h l = omega arith

-- The digits of a number of 64 bits read back as the number: twenty are enough.
pub read_decimal-to_string : (n : ℕ) → n < 2 ^ 64 → read_decimal (to_string n) ≡ n
unfolding to_string
read_decimal-to_string n h = read_decimal-decimal 20 n (omega arith) (omega arith)
