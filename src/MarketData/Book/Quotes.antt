-- ===== src/MarketData/Book/Quotes.antt =====
-- The derived quotes: the mid price, the spread and the liquidity.
use challenge_8a2ffd.Common.{ℕ, zero, suc, ◌+◌, ◌≤◌, ◌≡◌, ap, ◌⊎◌, ◌∙◌, List, [], ◌∷◌, arith, All}
use challenge_8a2ffd.Common.Int.{ℤ, pos, ◌≤ℤ◌, ◌<ℤ◌, ◌+ℤ◌, ◌-ℤ◌, ◌/ℤ◌, +ℤ_parts, eq_of_parts}
use challenge_8a2ffd.MarketData.Book.{
  OrderBook, PriceLevel, best_bid, best_ask, mid_price, spread, bid_liquidity, sum_quantities,
  level_count, max_levels,
}

mid_between :
    (bid ask : ℤ)
    → pos 0 <ℤ bid
    → bid ≤ℤ ask
    → (bid ≤ℤ ((bid +ℤ ask) /ℤ 2)) × (((bid +ℤ ask) /ℤ 2) ≤ℤ ask)
unfolding ◌+ℤ◌ ◌/ℤ◌
mid_between bid ask h k = ground arith

-- With both sides quoted and not crossed, the mid price lies between them, and the spread added to
-- the bid is the ask.
pub mid_price_between :
    (b : OrderBook)
    → pos 0 <ℤ best_bid b
    → best_bid b ≤ℤ best_ask b
    → (best_bid b ≤ℤ mid_price b)
      × (mid_price b ≤ℤ best_ask b)
      × (best_bid b +ℤ spread b ≡ best_ask b)
unfolding mid_price spread ◌-ℤ◌ ◌+ℤ◌ ◌/ℤ◌
mid_price_between b h k = ground (arith, mid_between (best_bid b) (best_ask b) h k)

-- If one side has no positive price, mid price and spread are 0.
pub mid_price_one_sided :
    (b : OrderBook)
    → (best_bid b ≤ℤ pos 0) ⊎ (best_ask b ≤ℤ pos 0)
    → (mid_price b ≡ pos 0) × (spread b ≡ pos 0)
unfolding mid_price spread
mid_price_one_sided b h = ground arith

-- The levels of `k` come first, `n` of them at most.
abbrev pub sum_first : ℕ → List PriceLevel → ℤ
sum_first zero levels = pos 0
sum_first (suc n) [] = pos 0
sum_first (suc n) (l ∷ levels) = l.quantity +ℤ sum_first n levels

pub sum_quantities_lem :
    (n : ℕ) (levels : List PriceLevel) (total : ℤ)
    → sum_quantities n levels total ≡ total +ℤ sum_first n levels
unfolding sum_quantities
sum_quantities_lem zero levels total = eq_of_parts _ _ (omega (arith, +ℤ_parts total (pos 0)))
sum_quantities_lem (suc n) [] total = eq_of_parts _ _ (omega (arith, +ℤ_parts total (pos 0)))
sum_quantities_lem (suc n) (l ∷ levels) total =
    sum_quantities_lem n levels (total +ℤ l.quantity)
    ∙ eq_of_parts _ _ (
        omega (
          arith,
          +ℤ_parts (total +ℤ l.quantity) (sum_first n levels),
          +ℤ_parts total l.quantity,
          +ℤ_parts l.quantity (sum_first n levels),
          +ℤ_parts total (l.quantity +ℤ sum_first n levels),
        ))

sum_first_mono :
    (m n : ℕ) (levels : List PriceLevel)
    → All (λ l. pos 0 ≤ℤ l.quantity) levels
    → m ≤ n
    → (pos 0 ≤ℤ sum_first m levels) × (sum_first m levels ≤ℤ sum_first n levels)
sum_first_mono zero zero levels h k = omega arith
sum_first_mono zero (suc n) [] h k = omega arith
sum_first_mono zero (suc n) (l ∷ levels) h k = omega (
  arith,
  +ℤ_parts l.quantity (sum_first n levels),
  sum_first_mono zero n levels h.1 (omega arith),
)
sum_first_mono (suc m) zero levels h k = elim k [ ]
sum_first_mono (suc m) (suc n) [] h k = omega arith
sum_first_mono (suc m) (suc n) (l ∷ levels) h k = omega (
  arith,
  +ℤ_parts l.quantity (sum_first m levels),
  +ℤ_parts l.quantity (sum_first n levels),
  sum_first_mono m n levels h.1 (omega arith),
)

-- Over quantities that are not negative, the liquidity of more levels is at least that of fewer, and
-- asking for more levels than the book has gives the liquidity of them all.
pub bid_liquidity_mono :
    (b : OrderBook) (m n : ℕ)
    → All (λ l. pos 0 ≤ℤ l.quantity) b.bids
    → m ≤ n
    → (bid_liquidity b m ≤ℤ bid_liquidity b n)
      × (bid_liquidity b (max_levels + n) ≡ bid_liquidity b max_levels)
unfolding bid_liquidity
bid_liquidity_mono b m n h k = (
  rw
      (
        sum_quantities_lem (level_count m) b.bids (pos 0),
        sum_quantities_lem (level_count n) b.bids (pos 0),
      )
      (omega (
        arith,
        +ℤ_parts (pos 0) (sum_first (level_count m) b.bids),
        +ℤ_parts (pos 0) (sum_first (level_count n) b.bids),
        sum_first_mono (level_count m) (level_count n) b.bids h (ground arith),
      )),
  ap (λ t. sum_quantities t b.bids (pos 0)) (ground arith),
)
