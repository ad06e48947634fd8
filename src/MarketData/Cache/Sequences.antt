-- ===== src/MarketData/Cache/Sequences.antt =====
-- How an event moves the books of the cache and their sequence numbers.
use challenge_8a2ffd.Common.{
  ℕ, ◌+◌, ◌%◌, ◌^◌, ◌<◌, ◌≡◌, ◌&&◌, none, some, List, [], ◌∷◌, arith, ◌==◌, if◌then◌else◌, inc64,
}
use challenge_8a2ffd.MarketData.Book.{OrderBook}
use challenge_8a2ffd.MarketData.Event.{MarketDataEvent, Trade}
use challenge_8a2ffd.MarketData.Cache.{
  MarketDataCache, max_instruments, process_trade, process_trades, store_snapshot,
  update_from_event,
}

-- The trades of the list in instrument `i`.
abbrev pub count_trades : ℕ → List Trade → ℕ
count_trades i [] = 0
count_trades i (t ∷ ts) = (if t.instrument_id == i then 1 else 0) + count_trades i ts

process_trade_lem :
    (c : MarketDataCache) (now_ns : ℕ) (t : Trade) (i : ℕ)
    → i < max_instruments
    → let old = c.books i in
      let new = (process_trade c now_ns t).books i in
      (new.sequence ≡ (if t.instrument_id == i then inc64 old.sequence else old.sequence))
      × (new.bids ≡ old.bids)
      × (new.asks ≡ old.asks)
      × (new.stale ≡ old.stale)
      × (new.instrument_id ≡ old.instrument_id)
unfolding process_trade
process_trade_lem c now_ns t i h = ground arith

-- What a list of trades leaves of a book: only its timestamp and its sequence number can differ.
pub record IsTraded (old new : OrderBook) (n : ℕ) : Type 0 where
  pub sequence : new.sequence ≡ (old.sequence + n) % 2 ^ 64
  pub bids : new.bids ≡ old.bids
  pub asks : new.asks ≡ old.asks
  pub stale : new.stale ≡ old.stale
  pub instrument_id : new.instrument_id ≡ old.instrument_id

process_trades_lem :
    (clock : ℕ → ℕ) (k : ℕ) (ts : List Trade) (c : MarketDataCache) (i : ℕ)
    → i < max_instruments
    → (c.books i).sequence < 2 ^ 64
    → IsTraded (c.books i) ((process_trades clock k ts c).books i) (count_trades i ts)
unfolding process_trades
process_trades_lem clock k [] c i h w = ground arith
process_trades_lem clock k (t ∷ ts) c i h w =
    let first = process_trade_lem c (clock k) t i h in
    let small : ((process_trade c (clock k) t).books i).sequence < 2 ^ 64 = ground arith in
    ground (arith, process_trades_lem clock (k + 1) ts (process_trade c (clock k) t) i h small)

-- What the code is meant to keep of an event before its trades: a snapshot of instrument `i` replaces
-- the book, under the number of the event.
abbrev pub expected_book : MarketDataCache → MarketDataEvent → ℕ → OrderBook
expected_book c e i = elim e.order_book [
  | none ↦ c.books i
  | some ob ↦
      if e.has_order_book && e.instrument_id == i
      then (record ob { instrument_id = i; sequence = e.sequence })
      else c.books i
]

-- After an event, the book of an instrument in the cache is the snapshot that the event holds of it,
-- with the instrument and sequence number of the event, or else the book before; and each trade of
-- the event in that instrument has added one to the sequence number, modulo 2 ^ 64, and changed
-- neither levels, nor staleness, nor instrument.
pub update_from_event_lem :
    (c : MarketDataCache) (clock : ℕ → ℕ) (e : MarketDataEvent) (i : ℕ)
    → i < max_instruments
    → e.sequence < 2 ^ 64
    → (c.books i).sequence < 2 ^ 64
    → IsTraded
        (expected_book c e i)
        ((update_from_event c clock e).books i)
        (count_trades i e.trades)
unfolding update_from_event store_snapshot
update_from_event_lem c clock e i h w v =
    let stored : (store_snapshot c e).books i ≡ expected_book c e i = ground arith in
    let small : (expected_book c e i).sequence < 2 ^ 64 = ground arith in
    rw (← stored) (process_trades_lem clock 0 e.trades (store_snapshot c e) i h (rw stored small))
