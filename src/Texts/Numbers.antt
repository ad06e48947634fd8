-- ===== src/Texts/Numbers.antt =====
-- `std::stoi`, `std::stoll` and `std::stoull`: blanks, a sign, digits up to the first byte that is
-- none. `none` stands for the exceptions `invalid_argument` and `out_of_range`.
use mathlib.Core.List.{append-nil}
use challenge_8a2ffd.Common.{
  length, length-append, ℕ, zero, suc, ◌+◌, ◌-◌, ◌*◌, ◌/◌, ◌%◌, ◌^◌, ◌<◌, ◌≤◌, ◌≡◌, refl, ◌∙◌, ap,
  Bool, true, false, ◌&&◌, ◌||◌, Option, none, some, [], ◌∷◌, ◌++◌, inl, inr, arith, ltb, leb, ◌==◌,
  if◌then◌else◌, Bool-cases, All, All-append,
}
use challenge_8a2ffd.Common.Int.{ℤ, pos, negsuc, sub_ℕ}
use challenge_8a2ffd.Common.Json.{◌>>=◌}
use challenge_8a2ffd.Sharding.Hash.{Bytes, decimal, to_string}
use challenge_8a2ffd.Sharding.Decimal.{read_from, read_decimal-to_string}

abbrev pub is_space : ℕ → Bool
is_space c = c == 32 || (leb 9 c && leb c 13)

abbrev pub is_digit : ℕ → Bool
is_digit c = leb 48 c && leb c 57

unfoldable pub skip_spaces : Bytes → Bytes
skip_spaces [] = []
skip_spaces (c ∷ cs) = if is_space c then skip_spaces cs else c ∷ cs

-- The digits at the front, after those of `n`.
unfoldable pub read_digits : ℕ → Bytes → ℕ
read_digits n [] = n
read_digits n (c ∷ cs) = if is_digit c then read_digits (n * 10 + (c - 48)) cs else n

unfoldable pub magnitude : Bytes → Option ℕ
magnitude [] = none
magnitude (c ∷ cs) = if is_digit c then some (read_digits 0 (c ∷ cs)) else none

unfoldable pub read_signed : Bytes → Option ℤ
read_signed [] = none
read_signed (c ∷ cs) =
    if c == 45
    then (magnitude cs >>= λ n. some (sub_ℕ 0 n))
    else if c == 43
    then (magnitude cs >>= λ n. some (pos n))
    else magnitude (c ∷ cs) >>= λ n. some (pos n)

-- The values of `w + 1` bits.
abbrev pub in_range : ℕ → ℤ → Option ℤ
in_range w (pos n) = if ltb n (2 ^ w) then some (pos n) else none
in_range w (negsuc n) = if ltb n (2 ^ w) then some (negsuc n) else none

-- `strtoull` negates modulo 2 ^ 64.
abbrev pub as_unsigned : ℤ → Option ℕ
as_unsigned (pos n) = if ltb n (2 ^ 64) then some n else none
as_unsigned (negsuc n) = if ltb (suc n) (2 ^ 64) then some (2 ^ 64 - suc n) else none

unfoldable pub stoi : Bytes → Option ℤ
stoi text = read_signed (skip_spaces text) >>= in_range 31

unfoldable pub stoll : Bytes → Option ℤ
stoll text = read_signed (skip_spaces text) >>= in_range 63

unfoldable pub stoull : Bytes → Option ℕ
stoull text = read_signed (skip_spaces text) >>= as_unsigned

abbrev pub IsDigit : ℕ → Type 0
IsDigit c = (48 ≤ c) × (c ≤ 57)

pub decimal-IsDigit : (fuel n : ℕ) → All IsDigit (decimal fuel n)
unfolding decimal
decimal-IsDigit zero n = tt
decimal-IsDigit (suc fuel) n = elim (Bool-cases (ltb n 10)) [
  | inl t ↦ rw t ((ground arith, ground arith), tt)
  | inr t ↦ rw t (
      All-append IsDigit (decimal fuel (n / 10)) ((48 + n % 10) ∷ [])
        (decimal-IsDigit fuel (n / 10)) ((ground arith, ground arith), tt))
]

pub to_string-IsDigit : (n : ℕ) → All IsDigit (to_string n)
unfolding to_string
to_string-IsDigit n = decimal-IsDigit 20 n

-- A text that does not go on with a digit.
abbrev pub Stops : Bytes → Type 0
Stops [] = Unit
Stops (c ∷ cs) = is_digit c ≡ false

read_digits-append :
    (n : ℕ) (k rest : Bytes)
    → All IsDigit k
    → Stops rest
    → read_digits n (k ++ rest) ≡ read_from n k
unfolding read_digits
read_digits-append n [] [] d s = refl
read_digits-append n [] (c ∷ cs) d s = rw s refl
read_digits-append n (c ∷ k) rest ((low, high), d) s =
    let digit : is_digit c ≡ true = ground arith in
    rw digit (read_digits-append (n * 10 + (c - 48)) k rest d s)

magnitude-append :
    (k rest : Bytes)
    → All IsDigit k
    → 0 < length k
    → Stops rest
    → magnitude (k ++ rest) ≡ some (read_from 0 k)
unfolding magnitude
magnitude-append [] rest d p s = absurd (omega arith)
magnitude-append (c ∷ k) rest ((low, high), d) p s =
    let digit : is_digit c ≡ true = ground arith in
    rw digit (ap some (read_digits-append 0 (c ∷ k) rest ((low, high), d) s))

-- Text that starts with a digit has no blank and no sign in front.
read_signed-append :
    (k rest : Bytes)
    → All IsDigit k
    → 0 < length k
    → Stops rest
    → read_signed (skip_spaces (k ++ rest)) ≡ some (pos (read_from 0 k))
unfolding read_signed skip_spaces
read_signed-append [] rest d p s = absurd (omega arith)
read_signed-append (c ∷ k) rest ((low, high), d) p s =
    let visible : is_space c ≡ false = ground arith in
    let minus : (c == 45) ≡ false = ground arith in
    let plus : (c == 43) ≡ false = ground arith in
    rw visible (rw minus (rw plus (rw (magnitude-append (c ∷ k) rest ((low, high), d) p s) refl)))

length-decimal : (fuel n : ℕ) → 0 < length (decimal (suc fuel) n)
unfolding decimal
length-decimal fuel n = elim (Bool-cases (ltb n 10)) [
  | inl t ↦ rw t (omega arith)
  | inr t ↦ rw t (omega (arith, length-append (decimal fuel (n / 10)) ((48 + n % 10) ∷ [])))
]

pub length-to_string : (n : ℕ) → 0 < length (to_string n)
unfolding to_string
length-to_string n = length-decimal 19 n

read_signed-to_string :
    (n : ℕ) (rest : Bytes)
    → n < 2 ^ 64
    → Stops rest
    → read_signed (skip_spaces (to_string n ++ rest)) ≡ some (pos n)
read_signed-to_string n rest h s =
    read_signed-append (to_string n) rest (to_string-IsDigit n) (length-to_string n) s
    ∙ ap (λ m. some (pos m)) (read_decimal-to_string n h)

-- A number that `to_string` writes is read back,
pub stoi-to_string : (n : ℕ) → n < 2 ^ 31 → stoi (to_string n) ≡ some (pos n)
unfolding stoi
stoi-to_string n h =
    let read = rw append-nil at (read_signed-to_string n [] (omega arith) tt) in
    let fits : ltb n (2 ^ 31) ≡ true = ground arith in rw read (rw fits refl)

pub stoll-to_string : (n : ℕ) → n < 2 ^ 63 → stoll (to_string n) ≡ some (pos n)
unfolding stoll
stoll-to_string n h =
    let read = rw append-nil at (read_signed-to_string n [] (omega arith) tt) in
    let fits : ltb n (2 ^ 63) ≡ true = ground arith in rw read (rw fits refl)

-- and what follows the digits is ignored.
pub stoull-to_string :
    (n : ℕ) (rest : Bytes) → n < 2 ^ 64 → Stops rest → stoull (to_string n ++ rest) ≡ some n
unfolding stoull
stoull-to_string n rest h s =
    let fits : ltb n (2 ^ 64) ≡ true = ground arith in
    rw (read_signed-to_string n rest h s) (rw fits refl)
