-- ===== src/Common/Bits.antt =====
-- The bit operation `&` digit by digit, and powers of two.
use Prim.Native.Nat.{min, digits, bit_and, bit_and-bitwise}
use mathlib.Core.Path.{subst, subst₂}
use mathlib.Core.WellFounded
use mathlib.Core.WellFounded.{Acc, WellFounded}
use native.Mathlib.Nat.{le_refl, pow-suc, one-le-pow}
use challenge_8a2ffd.Common.{
  ℕ, zero, suc, ◌+◌, ◌-◌, ◌*◌, ◌/◌, ◌%◌, ◌^◌, ◌≤◌, ◌<◌, ◌≡◌, refl, ◌⊎◌, inl, inr, arith,
}

below-Acc : (bound n : ℕ) → n < bound → Acc ◌<◌ n
below-Acc zero n h = elim h [ ]
below-Acc (suc bound) n h = Acc.intro n λ m hm. below-Acc bound m (omega arith)

pub lt_wf : WellFounded ◌<◌
lt_wf = record { apply = λ n. below-Acc (suc n) n (omega arith) }

-- More fuel than the first number changes nothing.
digits-fuel : (f g a b : ℕ) → a ≤ f → a ≤ g → digits (λ y. 0) min f a b ≡ digits (λ y. 0) min g a b
digits-fuel zero zero a b h k = refl
digits-fuel zero (suc g) zero b h k = refl
digits-fuel zero (suc g) (suc a) b h k = absurd (omega arith)
digits-fuel (suc f) zero zero b h k = refl
digits-fuel (suc f) zero (suc a) b h k = absurd (omega arith)
digits-fuel (suc f) (suc g) zero b h k = refl
digits-fuel (suc f) (suc g) (suc a) b h k =
    rw (digits-fuel f g (suc a / 2) (b / 2) (omega arith) (omega arith))

pub bit_and_digit : (a b : ℕ) → bit_and a b ≡ bit_and (a / 2) (b / 2) * 2 + min (a % 2) (b % 2)
bit_and_digit zero b = simp bit_and-bitwise (omega arith)
bit_and_digit (suc a) b =
    simp bit_and-bitwise
      (omega (arith, digits-fuel a (suc a / 2) (suc a / 2) (b / 2) (omega arith) (le_refl _)))

pub bit_and_self : (a : ℕ) → bit_and a a ≡ a
bit_and_self a = WellFounded.induction lt_wf {C = λ n. bit_and n n ≡ n} a step
  where
    step : (n : ℕ) → ((m : ℕ) → m < n → bit_and m m ≡ m) → bit_and n n ≡ n
    step zero ih = refl
    step (suc n) ih = omega (arith, bit_and_digit (suc n) (suc n), ih (suc n / 2) (omega arith))

-- The powers of two.
abbrev pub IsPowerOfTwo : ℕ → Type 0
IsPowerOfTwo n = (k : ℕ) × (n ≡ 2 ^ k)

two_cases : (n : ℕ) → (n % 2 ≡ 0) ⊎ (n % 2 ≡ 1)
two_cases n = ground arith

double-IsPowerOfTwo : (m n : ℕ) → n ≡ m * 2 → IsPowerOfTwo m → IsPowerOfTwo n
double-IsPowerOfTwo m n e (k, h) = (suc k, omega (arith, pow-suc 2 k))

halved : (n : ℕ) → 0 < n → n % 2 ≡ 0 → bit_and n (n - 1) ≡ 0 → bit_and (n / 2) (n / 2 - 1) ≡ 0
halved n h even e =
    let same : (n - 1) / 2 ≡ n / 2 - 1 = omega arith in
    let digit = bit_and_digit n (n - 1) in
    let digit' =
      subst (λ t. bit_and n (n - 1) ≡ bit_and (n / 2) t * 2 + min (n % 2) ((n - 1) % 2)) same
        digit in
    omega arith

odd-one : (n : ℕ) → n % 2 ≡ 1 → bit_and n (n - 1) ≡ 0 → n ≡ 1
odd-one n odd e =
    let same : (n - 1) / 2 ≡ n / 2 = omega arith in
    let digit = bit_and_digit n (n - 1) in
    let digit' =
      subst (λ t. bit_and n (n - 1) ≡ bit_and (n / 2) t * 2 + min (n % 2) ((n - 1) % 2)) same
        digit in
    omega (arith, bit_and_self (n / 2))

-- `size & (size - 1)` is 0 for a positive number only if it is a power of two,
pub IsPowerOfTwo-of_bit_and : (a : ℕ) → 0 < a → bit_and a (a - 1) ≡ 0 → IsPowerOfTwo a
IsPowerOfTwo-of_bit_and a =
    WellFounded.induction lt_wf {C = λ n. 0 < n → bit_and n (n - 1) ≡ 0 → IsPowerOfTwo n} a
      λ n ih h e. elim (two_cases n) [
        | inl even ↦
            double-IsPowerOfTwo (n / 2) n (omega arith)
              (ih (n / 2) (omega arith) (omega arith) (halved n h even e))
        | inr odd ↦ (0, odd-one n odd e)
      ]

-- and it is 0 for all of them.
pub bit_and-pow : (k : ℕ) → bit_and (2 ^ k) (2 ^ k - 1) ≡ 0
bit_and-pow zero = refl
bit_and-pow (suc k) =
    let positive = one-le-pow k 2 in
    let double = pow-suc 2 k in
    let high : 2 ^ suc k / 2 ≡ 2 ^ k = omega arith in
    let low : (2 ^ suc k - 1) / 2 ≡ 2 ^ k - 1 = omega arith in
    let digit =
      subst₂
        (λ s t.
          bit_and (2 ^ suc k) (2 ^ suc k - 1)
          ≡ bit_and s t * 2 + min (2 ^ suc k % 2) ((2 ^ suc k - 1) % 2))
        high low (bit_and_digit (2 ^ suc k) (2 ^ suc k - 1)) in
    omega (arith, bit_and-pow k)

-- A power of two above another is at least its double.
pub pow-lt-double : (j k : ℕ) → 2 ^ j < 2 ^ k → 2 ^ suc j ≤ 2 ^ k
pow-lt-double zero zero h = absurd (omega arith)
pow-lt-double zero (suc k) h = omega (arith, pow-suc 2 k, one-le-pow k 2)
pow-lt-double (suc j) zero h = absurd (omega (arith, one-le-pow (suc j) 2))
pow-lt-double (suc j) (suc k) h = omega (
  arith,
  pow-suc 2 j,
  pow-suc 2 k,
  pow-suc 2 (suc j),
  pow-lt-double j k (omega (arith, pow-suc 2 j, pow-suc 2 k)),
)
