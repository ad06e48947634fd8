-- ===== src/MarketData/Tests.antt =====
-- Runs of the order book and of the cache on concrete quotes and events.
use challenge_8a2ffd.Common.{ℕ, ◌+◌, ◌≡◌, refl, true, some, [], ◌∷◌, arith}
use challenge_8a2ffd.Common.Int.{pos, ◌+ℤ◌, ◌-ℤ◌, ◌/ℤ◌}
use challenge_8a2ffd.MarketData.Book.{
  OrderBook, IsBook, buy, empty_book, update_bid, update_ask, best_bid, best_ask, best_price,
  mid_price, spread, bid_liquidity, sum_quantities,
}
use challenge_8a2ffd.MarketData.Book.Best.{IsBest, best_price-IsBest}
use challenge_8a2ffd.MarketData.Event.{Trade, MarketDataEvent, empty_event}
use challenge_8a2ffd.MarketData.Cache.{empty_cache, update_from_event}
use challenge_8a2ffd.MarketData.Cache.Sequences.{IsTraded, expected_book, update_from_event_lem}

-- A bid of 20 at 1.5 on the second level, an ask of 5 at 1.6 on the first.
quoted : OrderBook
unfolding update_bid update_ask empty_book
quoted =
    update_ask (update_bid empty_book 1 (pos 1_500_000) (pos 20) 2 77 78) 0 (pos 1_600_000) (pos 5)
      1 79 80

quotes :
    (best_bid quoted ≡ pos 1_500_000)
    × (best_ask quoted ≡ pos 1_600_000)
    × (mid_price quoted ≡ pos 1_550_000)
    × (spread quoted ≡ pos 100_000)
    × (bid_liquidity quoted 99 ≡ pos 20)
    × (quoted.last_update_ns ≡ 80)
unfolding quoted best_bid best_ask best_price mid_price spread bid_liquidity sum_quantities ◌+ℤ◌
    ◌-ℤ◌ ◌/ℤ◌
quotes = (refl, refl, refl, refl, refl, refl)

quoted-IsBook : IsBook quoted
unfolding quoted
quoted-IsBook = record { bids_length = refl; asks_length = refl }

best_price-IsBest_example : IsBest quoted.bids (best_price quoted.bids)
best_price-IsBest_example = best_price-IsBest quoted.bids

abbrev trade_in : ℕ → Trade
trade_in i = record {
  trade_id = 1;
  instrument_id = i;
  venue_id = 1;
  price = pos 1_550_000;
  quantity = pos 2;
  side = buy;
  timestamp = 0;
  sequence = 0;
}

-- A snapshot of instrument 5 with two trades in it and one in another.
abbrev busy_event : MarketDataEvent
unfolding empty_event
busy_event = record empty_event {
  instrument_id = 5;
  sequence = 40;
  order_book = some quoted;
  has_order_book = true;
  trades = trade_in 5 ∷ trade_in 6 ∷ trade_in 5 ∷ [];
}

after_event :
    (((update_from_event empty_cache (λ i. 900 + i) busy_event).books 5).sequence ≡ 42)
    × (((update_from_event empty_cache (λ i. 900 + i) busy_event).books 6).sequence ≡ 1)
    × (best_bid ((update_from_event empty_cache (λ i. 900 + i) busy_event).books 5) ≡ pos 1_500_000)
unfolding update_from_event empty_cache quoted best_bid best_price empty_event
after_event = (refl, refl, refl)

update_from_event_lem_example :
    IsTraded
      (expected_book empty_cache busy_event 5)
      ((update_from_event empty_cache (λ i. 900 + i) busy_event).books 5)
      2
unfolding empty_event empty_cache
update_from_event_lem_example =
    update_from_event_lem empty_cache (λ i. 900 + i) busy_event 5 (omega arith) (omega arith)
      (omega arith)
