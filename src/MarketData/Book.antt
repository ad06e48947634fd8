-- ===== src/MarketData/Book.antt =====
-- `PriceLevel` and `OrderBookLevel2<10>` of src/domain/MarketData.h. The arrays are lists, and an
-- invariant gives them their ten elements. Each call that reads the clock takes the reading.
pub mod Best
pub mod Updates
pub mod Quotes
use challenge_8a2ffd.Common.{
  ℕ, zero, suc, ◌≡◌, Bool, true, false, ◌&&◌, List, [], ◌∷◌, ltb, leb, if◌then◌else◌, length, set,
  replicate, get_elem?, Option, none, some,
}
use challenge_8a2ffd.Common.Int.{ℤ, pos, ◌+ℤ◌, ◌-ℤ◌, ◌/ℤ◌, ltb_ℤ, eqb_ℤ}

-- PRICE_MULTIPLIER.
abbrev pub price_multiplier : ℕ
price_multiplier = 1000000

pub data Side : Type 0 where
  buy sell : Side

pub data MarketDataType : Type 0 where
  bid ask trade snapshot : MarketDataType

pub record PriceLevel : Type 0 where
  pub price : ℤ
  pub quantity : ℤ
  pub order_count : ℕ
  pub last_update : ℕ

-- A value-initialised level.
abbrev pub empty_level : PriceLevel
empty_level = record { price = pos 0; quantity = pos 0; order_count = 0; last_update = 0 }

-- `PriceLevel::update`, with the clock's nanoseconds.
abbrev pub update_level : PriceLevel → ℤ → ℤ → ℕ → ℕ → PriceLevel
update_level l price quantity orders now_ns = record {
  price = price;
  quantity = quantity;
  order_count = orders;
  last_update = now_ns;
}

-- `PriceLevel::clear`: the time of the last update stays.
abbrev pub clear_level : PriceLevel → PriceLevel
clear_level l = record l { price = pos 0; quantity = pos 0; order_count = 0 }

-- `PriceLevel::isEmpty`.
abbrev pub is_empty : PriceLevel → Bool
is_empty l = eqb_ℤ l.quantity (pos 0)

abbrev pub max_levels : ℕ
max_levels = 10

pub record OrderBook : Type 0 where
  pub bids : List PriceLevel
  pub asks : List PriceLevel
  pub sequence : ℕ
  pub last_update_ns : ℕ
  pub instrument_id : ℕ
  pub stale : Bool

-- The two arrays have their size.
pub record IsBook (b : OrderBook) : Type 0 where
  pub bids_length : length b.bids ≡ max_levels
  pub asks_length : length b.asks ≡ max_levels

-- The constructor `OrderBookLevel2()`.
unfoldable pub empty_book : OrderBook
unfolding replicate
empty_book = record {
  bids = replicate max_levels empty_level;
  asks = replicate max_levels empty_level;
  sequence = 0;
  last_update_ns = 0;
  instrument_id = 0;
  stale = false;
}

unfoldable pub update_timestamp : OrderBook → ℕ → OrderBook
update_timestamp b now_ns = record b { last_update_ns = now_ns }

-- The entry of `levels` at `level` after `PriceLevel::update`.
abbrev pub write_level : List PriceLevel → ℕ → ℤ → ℤ → ℕ → ℕ → List PriceLevel
write_level levels level price quantity orders now_ns =
    set levels level (update_level empty_level price quantity orders now_ns)

-- `now_ns` is the clock in the level, `stamp_ns` the clock in `updateTimestamp`.
unfoldable pub update_bid : OrderBook → ℕ → ℤ → ℤ → ℕ → ℕ → ℕ → OrderBook
unfolding update_timestamp
update_bid b level price quantity orders now_ns stamp_ns =
    if ltb level max_levels
    then (update_timestamp
        (record b { bids = write_level b.bids level price quantity orders now_ns }) stamp_ns)
    else b

unfoldable pub update_ask : OrderBook → ℕ → ℤ → ℤ → ℕ → ℕ → ℕ → OrderBook
unfolding update_timestamp
update_ask b level price quantity orders now_ns stamp_ns =
    if ltb level max_levels
    then (update_timestamp
        (record b { asks = write_level b.asks level price quantity orders now_ns }) stamp_ns)
    else b

-- The loop of `bestBid` and `bestAsk`.
unfoldable pub best_price : List PriceLevel → ℤ
best_price [] = pos 0
best_price (l ∷ levels) = if is_empty l then best_price levels else l.price

unfoldable pub best_bid : OrderBook → ℤ
best_bid b = best_price b.bids

unfoldable pub best_ask : OrderBook → ℤ
best_ask b = best_price b.asks

unfoldable pub mid_price : OrderBook → ℤ
mid_price b =
    let bid = best_bid b in
    let ask = best_ask b in
    if ltb_ℤ (pos 0) bid && ltb_ℤ (pos 0) ask then (bid +ℤ ask) /ℤ 2 else pos 0

unfoldable pub spread : OrderBook → ℤ
spread b =
    let ask = best_ask b in
    let bid = best_bid b in if ltb_ℤ (pos 0) ask && ltb_ℤ (pos 0) bid then ask -ℤ bid else pos 0

-- The loop of `bidLiquidity` and `askLiquidity`: `count` rounds from the front of the array.
unfoldable pub sum_quantities : ℕ → List PriceLevel → ℤ → ℤ
sum_quantities zero levels total = total
sum_quantities (suc count) [] total = total
sum_quantities (suc count) (l ∷ levels) total = sum_quantities count levels (total +ℤ l.quantity)

abbrev pub level_count : ℕ → ℕ
level_count levels = if ltb max_levels levels then max_levels else levels

unfoldable pub bid_liquidity : OrderBook → ℕ → ℤ
bid_liquidity b levels = sum_quantities (level_count levels) b.bids (pos 0)

unfoldable pub ask_liquidity : OrderBook → ℕ → ℤ
ask_liquidity b levels = sum_quantities (level_count levels) b.asks (pos 0)

-- `OrderBookLevel2::clear`: sequence, timestamp and instrument stay.
unfoldable pub clear : OrderBook → OrderBook
unfolding replicate
clear b = record b {
  bids = replicate max_levels empty_level;
  asks = replicate max_levels empty_level;
  stale = false;
}

unfoldable pub mark_stale : OrderBook → OrderBook
mark_stale b = record b { stale = true }
