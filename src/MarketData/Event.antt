-- ===== src/MarketData/Event.antt =====
-- `Trade` and `MarketDataEvent` of src/domain/MarketData.h. The owned pointer of the event's union is
-- an optional book; the event keeps the flag beside it as the code does.
use challenge_8a2ffd.Common.{
  ℕ, ◌≤◌, Bool, true, false, not, ◌&&◌, ◌||◌, Option, none, some, List, [], ◌∷◌, ◌++◌, arith, ltb,
  ◌==◌, if◌then◌else◌, length, length-append,
}
use challenge_8a2ffd.Common.Int.{ℤ, pos, ◌*ℤ◌, ◌/ℤ◌, ltb_ℤ}
use challenge_8a2ffd.MarketData.Book.{
  Side, MarketDataType, trade, snapshot, OrderBook, price_multiplier,
}

pub record Trade : Type 0 where
  pub trade_id : ℕ
  pub instrument_id : ℕ
  pub venue_id : ℕ
  pub price : ℤ
  pub quantity : ℤ
  pub side : Side
  pub timestamp : ℕ
  pub sequence : ℕ

unfoldable pub is_valid_trade : Trade → Bool
is_valid_trade t =
    ltb 0 t.trade_id && ltb 0 t.instrument_id && ltb_ℤ (pos 0) t.quantity && ltb_ℤ (pos 0) t.price

unfoldable pub notional_value : Trade → ℤ
notional_value t = t.quantity *ℤ t.price /ℤ price_multiplier

abbrev pub max_trades_per_event : ℕ
max_trades_per_event = 100

pub record MarketDataEvent : Type 0 where
  pub type : MarketDataType
  pub instrument_id : ℕ
  pub timestamp : ℕ
  pub sequence : ℕ
  pub order_book : Option OrderBook
  pub has_order_book : Bool
  pub trades : List Trade

unfoldable pub empty_event : MarketDataEvent
empty_event = record {
  type = snapshot;
  instrument_id = 0;
  timestamp = 0;
  sequence = 0;
  order_book = none;
  has_order_book = false;
  trades = [];
}

-- The argument is a pointer, which may be null.
unfoldable pub set_order_book : MarketDataEvent → Option OrderBook → MarketDataEvent
set_order_book e ob = record e { order_book = ob; has_order_book = true; type = snapshot }

-- `add_trade` once the trade is in the vector.
abbrev pub note_first : MarketDataEvent → MarketDataEvent
note_first e = if length e.trades == 1 then (record e { type = trade }) else e

unfoldable pub add_trade : MarketDataEvent → Trade → MarketDataEvent
add_trade e t =
    if ltb (length e.trades) max_trades_per_event
    then note_first (record e { trades = e.trades ++ (t ∷ []) })
    else e

abbrev pub is_nil {ℓ} : {A : Type ℓ} → List A → Bool
is_nil [] = true
is_nil (a ∷ l) = false

abbrev pub is_some {ℓ} : {A : Type ℓ} → Option A → Bool
is_some none = false
is_some (some a) = true

unfoldable pub has_data : MarketDataEvent → Bool
has_data e = e.has_order_book || not (is_nil e.trades)

-- An event that holds a null pointer keeps its flag.
unfoldable pub clear_event : MarketDataEvent → MarketDataEvent
clear_event e =
    let freed : MarketDataEvent =
      if e.has_order_book && is_some e.order_book
      then (record e { order_book = none; has_order_book = false })
      else e in
    record freed { trades = []; type = snapshot }

-- An event never holds more trades than `kMaxTradesPerEvent`, and `addTrade` drops the rest.
pub length-add_trade-le :
    (e : MarketDataEvent) (t : Trade)
    → length e.trades ≤ max_trades_per_event
    → length (add_trade e t).trades ≤ max_trades_per_event
unfolding add_trade
length-add_trade-le e t h = ground (arith, length-append e.trades (t ∷ []))
