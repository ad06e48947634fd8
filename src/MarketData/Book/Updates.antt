-- ===== src/MarketData/Book/Updates.antt =====
-- What `updateBid`, `updateAsk`, `clear` and `markStale` do to a book.
use challenge_8a2ffd.Common.{
  ℕ, ◌≤◌, ◌<◌, ◌≡◌, refl, ◌≢◌, arith, length-set, get_elem?, get_elem?-set_self, some, ltb_iff,
}
use challenge_8a2ffd.Common.Int.{ℤ, pos}
use challenge_8a2ffd.MarketData.Book.{
  OrderBook, IsBook, PriceLevel, update_bid, update_ask, update_level, empty_level, max_levels,
  best_bid,
}
use challenge_8a2ffd.MarketData.Book.Best.{EmptyBefore, best_price-set}

pub update_bid-IsBook :
    (b : OrderBook) (level : ℕ) (price quantity : ℤ) (orders now stamp : ℕ)
    → IsBook b
    → IsBook (update_bid b level price quantity orders now stamp)
unfolding update_bid
update_bid-IsBook b level price quantity orders now stamp v = ground (
  arith,
  length-set b.bids level
      (record { price = price; quantity = quantity; order_count = orders; last_update = now }),
)

-- Inside the array `updateBid` writes the level, stamps the book, and leaves the asks, the sequence
-- number and the staleness.
pub update_bid_written :
    (b : OrderBook) (level : ℕ) (price quantity : ℤ) (orders now stamp : ℕ)
    → IsBook b
    → level < max_levels
    → let b' = update_bid b level price quantity orders now stamp in
      let new : PriceLevel = update_level empty_level price quantity orders now in
      (get_elem? b'.bids level ≡ some new)
      × (b'.asks ≡ b.asks)
      × (b'.last_update_ns ≡ stamp)
      × (b'.sequence ≡ b.sequence)
      × (b'.stale ≡ b.stale)
unfolding update_bid
update_bid_written b level price quantity orders now stamp v h =
    rw ((ltb_iff level max_levels).1 h)
      (get_elem?-set_self b.bids level _ (omega (arith, v.bids_length)), refl, refl, refl, refl)

-- Past the array neither side changes.
pub update_past_end :
    (b : OrderBook) (level : ℕ) (price quantity : ℤ) (orders now stamp : ℕ)
    → max_levels ≤ level
    → (update_bid b level price quantity orders now stamp ≡ b)
      × (update_ask b level price quantity orders now stamp ≡ b)
unfolding update_bid update_ask
update_past_end b level price quantity orders now stamp h = (ground arith, ground arith)

-- A quote at a level that no better level beats is the best bid.
pub best_bid-update_bid :
    (b : OrderBook) (level : ℕ) (price quantity : ℤ) (orders now stamp : ℕ)
    → IsBook b
    → level < max_levels
    → EmptyBefore level b.bids
    → quantity ≢ pos 0
    → best_bid (update_bid b level price quantity orders now stamp) ≡ price
unfolding best_bid update_bid
best_bid-update_bid b level price quantity orders now stamp v h e q =
    rw ((ltb_iff level max_levels).1 h)
      (best_price-set b.bids level _ (omega (arith, v.bids_length)) e q)
