-- ===== src/MarketData/Book/Best.antt =====
-- What `bestBid` and `bestAsk` find: the first level that is not empty.
use challenge_8a2ffd.Common.{
  ℕ, zero, suc, ◌<◌, ◌≡◌, refl, ap, ◌≢◌, inl, inr, true, false, List, [], ◌∷◌, ◌++◌, arith, length,
  set, All, Bool-cases,
}
use challenge_8a2ffd.Common.Int.{ℤ, pos, negsuc, eqb_ℤ}
use challenge_8a2ffd.MarketData.Book.{PriceLevel, is_empty, best_price}

-- `p` is the price of the first of `levels` that holds a quantity, or 0 if none does.
pub data IsBest (levels : List PriceLevel) (p : ℤ) : Type 0 where
  none_quoted : All (λ l. l.quantity ≡ pos 0) levels → p ≡ pos 0 → IsBest levels p
  first_quoted :
      (better : List PriceLevel) (l : PriceLevel) (worse : List PriceLevel)
      → levels ≡ better ++ (l ∷ worse)
      → All (λ b. b.quantity ≡ pos 0) better
      → l.quantity ≢ pos 0
      → p ≡ l.price
      → IsBest levels p

eqb_zero : (a : ℤ) → eqb_ℤ a (pos 0) ≡ true → a ≡ pos 0
eqb_zero (pos n) h = ground arith
eqb_zero (negsuc n) h = ground arith

eqb_nonzero : (a : ℤ) → eqb_ℤ a (pos 0) ≡ false → a ≢ pos 0
eqb_nonzero (pos n) h e = ground arith
eqb_nonzero (negsuc n) h e = cc

IsBest-cons :
    (l : PriceLevel) (levels : List PriceLevel) (p : ℤ)
    → l.quantity ≡ pos 0
    → IsBest levels p
    → IsBest (l ∷ levels) p
IsBest-cons l levels p e (none_quoted h q) = none_quoted (e, h) q
IsBest-cons l levels p e (first_quoted better l' worse split h n q) =
    first_quoted (l ∷ better) l' worse (ap (λ t. l ∷ t) split) (e, h) n q

-- The best price is that of the first level that holds a quantity, or 0 if no level does.
pub best_price-IsBest : (levels : List PriceLevel) → IsBest levels (best_price levels)
unfolding best_price
best_price-IsBest [] = none_quoted tt refl
best_price-IsBest (l ∷ levels) = elim (Bool-cases (is_empty l)) [
  | inl e ↦ rw e (IsBest-cons l levels _ (eqb_zero l.quantity e) (best_price-IsBest levels))
  | inr e ↦ rw e (first_quoted [] l levels refl tt (eqb_nonzero l.quantity e) refl)
]

-- All levels that stand before `level` are empty.
abbrev pub EmptyBefore : ℕ → List PriceLevel → Type 0
EmptyBefore zero levels = Unit
EmptyBefore (suc n) [] = Unit
EmptyBefore (suc n) (l ∷ levels) = (l.quantity ≡ pos 0) × EmptyBefore n levels

pub best_price-set :
    (levels : List PriceLevel) (level : ℕ) (new : PriceLevel)
    → level < length levels
    → EmptyBefore level levels
    → new.quantity ≢ pos 0
    → best_price (set levels level new) ≡ new.price
unfolding best_price
best_price-set [] level new h e q = elim h [ ]
best_price-set (l ∷ levels) zero new h e q = elim (Bool-cases (is_empty new)) [
  | inl z ↦ absurd (q (eqb_zero new.quantity z))
  | inr z ↦ rw z refl
]
best_price-set (l ∷ levels) (suc level) new h (e, es) q =
    rw e (best_price-set levels level new (omega arith) es q)
