-- ===== src/MarketData/Cache.antt =====
-- `MarketDataCache` of src/domain/MarketData.h. Every access to the vector is behind the bound check
-- of `getOrderBook`, so the vector is its contents by index.
pub mod Sequences
use challenge_8a2ffd.Common.{
  ℕ, ◌%◌, ◌≡◌, Bool, Option, none, some, List, [], ◌∷◌, ◌+◌, ltb, if◌then◌else◌, update, inc64,
}
use challenge_8a2ffd.MarketData.Book.{OrderBook, empty_book, update_timestamp}
use challenge_8a2ffd.MarketData.Event.{MarketDataEvent, Trade}

abbrev pub max_instruments : ℕ
max_instruments = 10000

pub record MarketDataCache : Type 0 where
  pub books : ℕ → OrderBook

unfoldable pub empty_cache : MarketDataCache
unfolding empty_book
empty_cache = record { books = λ _. empty_book }

-- The null pointer is `none`.
unfoldable pub get_order_book : MarketDataCache → ℕ → Option OrderBook
get_order_book c instrument_id =
    if ltb instrument_id max_instruments then some (c.books instrument_id) else none

-- A write through the pointer that `getOrderBook` returned for `instrument_id`.
abbrev pub store_book : MarketDataCache → ℕ → OrderBook → MarketDataCache
store_book c instrument_id b = record { books = update c.books instrument_id b }

-- `processTrade`, with the clock's nanoseconds.
unfoldable pub process_trade : MarketDataCache → ℕ → Trade → MarketDataCache
unfolding get_order_book update_timestamp
process_trade c now_ns t = elim (get_order_book c t.instrument_id) [
  | none ↦ c
  | some ob ↦
      let stamped = update_timestamp ob now_ns in
      store_book c t.instrument_id (record stamped { sequence = inc64 stamped.sequence })
]

-- The loop over `event.trades_`, with the clock's reading at each trade.
unfoldable pub process_trades : (ℕ → ℕ) → ℕ → List Trade → MarketDataCache → MarketDataCache
unfolding process_trade
process_trades clock i [] c = c
process_trades clock i (t ∷ ts) c = process_trades clock (i + 1) ts (process_trade c (clock i) t)

-- The book of the event, copied over the cached one.
abbrev pub copy_book : MarketDataEvent → OrderBook → OrderBook
copy_book e ob = record ob { instrument_id = e.instrument_id; sequence = e.sequence }

unfoldable pub store_snapshot : MarketDataCache → MarketDataEvent → MarketDataCache
unfolding get_order_book
store_snapshot c e = if e.has_order_book then stored else c
  where
    stored : MarketDataCache
    stored = elim e.order_book [
      | none ↦ c
      | some ob ↦ elim (get_order_book c e.instrument_id) [
        | none ↦ c
        | some target ↦ store_book c e.instrument_id (copy_book e ob)
      ]
    ]

unfoldable pub update_from_event : MarketDataCache → (ℕ → ℕ) → MarketDataEvent → MarketDataCache
unfolding store_snapshot process_trades
update_from_event c clock e = process_trades clock 0 e.trades (store_snapshot c e)
