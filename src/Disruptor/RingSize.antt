-- ===== src/Disruptor/RingSize.antt =====
-- The ring buffer's size is the least power of two that will do.
use Prim.Native.Nat.{bit_and}
use native.Mathlib.Nat.{pow-suc, pow-le-pow_right}
use challenge_8a2ffd.Common.{
  ℕ, zero, suc, ◌-◌, ◌*◌, ◌/◌, ◌%◌, ◌^◌, ◌≤◌, ◌<◌, ◌≡◌, ◌≢◌, refl, ◌⊎◌, inl, inr, not, arith, ltb,
  ltb_iff, ◌==◌, if◌then◌else◌, Bool-cases, ==_iff,
}
use challenge_8a2ffd.Common.Bits.{IsPowerOfTwo, IsPowerOfTwo-of_bit_and, bit_and-pow, pow-lt-double}
use challenge_8a2ffd.Disruptor.Config.{
  bit_length, clzll, adjusted_size, min_ring_buffer_size, max_ring_buffer_size,
}

bit_length-zero : (fuel : ℕ) → bit_length fuel 0 ≡ 0
unfolding bit_length
bit_length-zero zero = refl
bit_length-zero (suc fuel) = refl

-- The number lies between the powers of two around its length.
bit_length_bounds :
    (fuel n : ℕ)
    → 0 < n
    → n < 2 ^ fuel
    → (1 ≤ bit_length fuel n)
      × (bit_length fuel n ≤ fuel)
      × (2 ^ bit_length fuel n ≤ 2 * n)
      × (n < 2 ^ bit_length fuel n)
unfolding bit_length
bit_length_bounds zero n h k = absurd (omega arith)
bit_length_bounds (suc fuel) zero h k = absurd (omega arith)
bit_length_bounds (suc fuel) (suc zero) h k =
    rw (bit_length-zero fuel) (omega arith, omega arith, omega arith, omega arith)
bit_length_bounds (suc fuel) (suc (suc n)) h k =
    let m = suc (suc n) / 2 in
    let (low, high, below, above) =
      bit_length_bounds fuel m (omega arith) (omega (arith, pow-suc 2 fuel)) in
    let double = pow-suc 2 (bit_length fuel m) in
    (omega arith, omega arith, omega arith, omega arith)

-- Rounding up gives a power of two that is less than twice the number,
rounded :
    (n : ℕ)
    → 0 < n
    → n ≤ 2 ^ 26
    → (k : ℕ) × (2 ^ (64 - clzll n) % 2 ^ 64 ≡ 2 ^ k) × (n < 2 ^ k) × (2 ^ k ≤ 2 * n)
rounded n h k =
    let (low, high, below, above) = bit_length_bounds 64 n h (omega arith) in
    let exponent : 64 - clzll n ≡ bit_length 64 n = omega arith in
    (bit_length 64 n, rw exponent (omega arith), above, below)

-- What is known of the size that a request ends with: a power of two that is not out of bounds
-- and covers the request, up to the greatest size.
abbrev pub IsRingSize : ℕ → ℕ → Type 0
IsRingSize size s =
    IsPowerOfTwo s
    × (min_ring_buffer_size ≤ s)
    × (s ≤ max_ring_buffer_size)
    × ((size ≤ s) ⊎ (s ≡ max_ring_buffer_size))

-- A number that is no power of two, doubled, is less than any greater power of two doubled.
round_least :
    (size j k : ℕ) → bit_and size (size - 1) ≢ 0 → size ≤ 2 ^ k → 2 ^ j ≤ 2 * size → 2 ^ j ≤ 2 ^ k
round_least size j k ne le high = elim (Bool-cases (size == 2 ^ k)) [
  | inl e ↦
      let same : size ≡ 2 ^ k = (==_iff size (2 ^ k)).0 e in absurd (ne (simp same (bit_and-pow k)))
  | inr e ↦
      let less : size < 2 ^ k = ground arith in
      elim (Bool-cases (ltb (2 ^ k) (2 ^ j))) [
        | inl e ↦ omega (arith, pow-lt-double k j ((ltb_iff _ _).0 e), pow-suc 2 k)
        | inr e ↦ ground arith
      ]
]

-- The four ways the code goes.
data Adjusts (size : ℕ) : ℕ → Type 0 where
  raised : size < min_ring_buffer_size → Adjusts size min_ring_buffer_size
  lowered : max_ring_buffer_size < size → Adjusts size max_ring_buffer_size
  kept :
      min_ring_buffer_size ≤ size
      → size ≤ max_ring_buffer_size
      → bit_and size (size - 1) ≡ 0
      → Adjusts size size
  rounded_up :
      (k : ℕ)
      → min_ring_buffer_size ≤ size
      → size ≤ max_ring_buffer_size
      → bit_and size (size - 1) ≢ 0
      → size < 2 ^ k
      → 2 ^ k ≤ 2 * size
      → Adjusts size (2 ^ k)

inside :
    (size : ℕ)
    → min_ring_buffer_size ≤ size
    → size ≤ max_ring_buffer_size
    → Adjusts size
        (if not (bit_and size (size - 1) == 0) then 2 ^ (64 - clzll size) % 2 ^ 64 else size)
inside size h h' = elim (Bool-cases (bit_and size (size - 1) == 0)) [
  | inl e ↦ rw e (kept h h' ((==_iff (bit_and size (size - 1)) 0).0 e))
  | inr e ↦
      let (k, same, low, high) = rounded size (omega arith) h' in
      let ne : bit_and size (size - 1) ≢ 0 = ground arith in
      rw e (rw same (rounded_up k h h' ne low high))
]

adjusted_size-Adjusts : (size : ℕ) → Adjusts size (adjusted_size size)
unfolding adjusted_size
adjusted_size-Adjusts size = elim (Bool-cases (ltb size min_ring_buffer_size)) [
  | inl e ↦ rw e (raised ((ltb_iff _ _).0 e))
  | inr e ↦ rw e (elim (Bool-cases (ltb max_ring_buffer_size size)) [
    | inl e ↦ rw e (lowered ((ltb_iff _ _).0 e))
    | inr e' ↦ rw e' (inside size (ground arith) (ground arith))
  ])
]

-- Whatever is asked for, the ring buffer gets a power of two from 1024 to 2^26 for its size, and
-- the size is no less than the one asked for, or it is the greatest one.
pub adjusted_size-IsRingSize : (size : ℕ) → IsRingSize size (adjusted_size size)
adjusted_size-IsRingSize size = elim (adjusted_size-Adjusts size) as (λ s _. IsRingSize size s) [
  | raised h ↦ ((10, refl), omega arith, omega arith, inl (omega arith))
  | lowered h ↦ ((26, refl), omega arith, omega arith, inr refl)
  | kept h h' e ↦ (IsPowerOfTwo-of_bit_and size (omega arith) e, h, h', inl (omega arith))
  | rounded_up k h h' ne low high ↦
      ((k, refl), omega arith, round_least size k 26 ne h' high, inl (omega arith))
]

-- The ring buffer's size is the least that will do: no power of two from 1024 on that covers the
-- size asked for is less than it.
pub adjusted_size_least : (size k : ℕ) → 10 ≤ k → size ≤ 2 ^ k → adjusted_size size ≤ 2 ^ k
adjusted_size_least size k h le = elim (adjusted_size-Adjusts size) as (λ s _. s ≤ 2 ^ k) [
  | raised h' ↦ pow-le-pow_right (omega arith) {i = 10} h
  | lowered h' ↦ omega arith
  | kept h h' e ↦ le
  | rounded_up j h h' ne low high ↦ round_least size j k ne le high
]
