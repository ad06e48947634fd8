-- ===== src/MarketDataFeed.antt =====
-- `MarketDataFeedAdapter` (src/adapters/MarketDataFeedAdapter.cpp): the connection to the feed, the
-- messages and the loop that reads them. The ring buffer, the JSON library and the network are
-- parameters, and so is the event that C++ makes by default.
pub mod Reconnecting
pub mod Counting
pub mod Stream
pub mod Tests
use challenge_8a2ffd.Common.{
  ℕ, ◌+◌, ◌^◌, ◌%◌, ◌≡◌, Bool, true, false, ◌&&◌, String, Option, none, some, List, [], ◌∷◌, leb,
  if◌then◌else◌, inc64,
}
use challenge_8a2ffd.Common.Double.{Double}
use challenge_8a2ffd.Common.Int.{ℤ, pos}
use challenge_8a2ffd.Common.Json.{◌>>=◌}
use challenge_8a2ffd.Sharding.Hash.{Bytes}
use challenge_8a2ffd.Texts.{bytes, same_bytes}
use challenge_8a2ffd.Adapters.Address.{parse_url}
use challenge_8a2ffd.Adapters.Connection.{Network, is_open, closed, dial}
use challenge_8a2ffd.Adapters.Document.{Document, Parser, string_value, double_value, int_value}
use challenge_8a2ffd.Adapters.Framing.{receive}
use challenge_8a2ffd.Adapters.Ring.{RingBuffer, publish_event}

abbrev pub max_reconnect_attempts : ℕ
max_reconnect_attempts = 10

pub data FeedEventType : Type 0 where
  trade quote orderbook_snapshot : FeedEventType

pub data FeedSide : Type 0 where
  buy sell : FeedSide

-- Times are milliseconds.
pub record FeedEvent (D : Type 0) : Type 0 where
  pub timestamp : ℕ
  pub sequence : ℕ
  pub event_type : FeedEventType
  pub instrument_id : Bytes
  pub price : D
  pub quantity : ℤ
  pub side : FeedSide
  pub bid_price : D
  pub ask_price : D
  pub bid_size : ℤ
  pub ask_size : ℤ

pub record FeedConfig : Type 0 where
  pub feed_url : Bytes
  pub default_port : ℤ

pub record FeedAdapter (R : Type 0) : Type 0 where
  pub ring_buffer : Option R
  pub config : FeedConfig
  pub running : Bool
  pub socket_fd : ℤ
  pub reconnect_attempts : ℕ
  pub last_sequence : ℕ
  pub messages_received : ℕ
  pub messages_dropped : ℕ
  pub message_buffer : Bytes

module _ {R : Type 0} where
  -- The constructor; the header gives the socket its first value.
  unfoldable pub constructed : Option R → FeedConfig → ℤ → FeedAdapter R
  constructed ring config socket = record {
    ring_buffer = ring;
    config = config;
    running = false;
    socket_fd = socket;
    reconnect_attempts = 0;
    last_sequence = 0;
    messages_received = 0;
    messages_dropped = 0;
    message_buffer = [];
  }

  -- Only a new connection sets the attempts back.
  unfoldable pub connect : Network → FeedAdapter R → FeedAdapter R × Bool
  connect network a =
      if is_open a.socket_fd
      then (a, true)
      else let socket = dial network (parse_url a.config.default_port a.config.feed_url) in
        if is_open socket
        then (record a { socket_fd = socket; reconnect_attempts = 0 }, true)
        else (record a { socket_fd = socket }, false)

  unfoldable pub disconnect : FeedAdapter R → FeedAdapter R
  disconnect a = if is_open a.socket_fd then record a { socket_fd = closed } else a

  -- The thread that is started has an empty buffer.
  abbrev pub finish_start : FeedAdapter R × Bool → FeedAdapter R
  finish_start (a, true) = record a { message_buffer = [] }
  finish_start (a, false) = record a { running = false }

  unfoldable pub start : Network → FeedAdapter R → FeedAdapter R
  start network a =
      if a.running then a else finish_start (connect network (record a { running = true }))

  unfoldable pub stop : FeedAdapter R → FeedAdapter R
  stop a = if a.running then disconnect (record a { running = false }) else a

  -- After the disconnection.
  unfoldable pub retry : Network → FeedAdapter R → FeedAdapter R
  retry network a =
      if leb max_reconnect_attempts a.reconnect_attempts
      then record a { running = false }
      else (connect network (record a { reconnect_attempts = a.reconnect_attempts + 1 })).0

  unfoldable pub handle_reconnect : Network → FeedAdapter R → FeedAdapter R
  handle_reconnect network a = retry network (disconnect a)

abbrev pub side_of : Bytes → FeedSide
side_of text = if same_bytes text (bytes "buy") then buy else sell

module _ {D : Type 0} ⦃d : Double D⦄ where
  unfoldable pub fill_trade : Document D → FeedEvent D → Option (FeedEvent D)
  fill_trade json event = do
    instrument ← string_value json "instrument_id" []
    price ← double_value json "price" (d.lit 0 1)
    quantity ← int_value json "quantity" (pos 0)
    side ← string_value json "side" []
    some (record event {
      event_type = trade;
      instrument_id = instrument;
      price = price;
      quantity = quantity;
      side = side_of side;
    })

  unfoldable pub fill_quote : Document D → FeedEvent D → Option (FeedEvent D)
  fill_quote json event = do
    instrument ← string_value json "instrument_id" []
    bid ← double_value json "bid" (d.lit 0 1)
    ask ← double_value json "ask" (d.lit 0 1)
    bid_size ← int_value json "bid_size" (pos 0)
    ask_size ← int_value json "ask_size" (pos 0)
    some (record event {
      event_type = quote;
      instrument_id = instrument;
      bid_price = bid;
      ask_price = ask;
      bid_size = bid_size;
      ask_size = ask_size;
    })

  unfoldable pub fill_orderbook : Document D → FeedEvent D → Option (FeedEvent D)
  fill_orderbook json event = do
    instrument ← string_value json "instrument_id" []
    bid ← double_value json "best_bid" (d.lit 0 1)
    ask ← double_value json "best_ask" (d.lit 0 1)
    some (record event {
      event_type = orderbook_snapshot;
      instrument_id = instrument;
      bid_price = bid;
      ask_price = ask;
    })

  -- Other types set no member.
  unfoldable pub fill_event : Document D → Bytes → FeedEvent D → Option (FeedEvent D)
  fill_event json type event =
      if same_bytes type (bytes "trade")
      then fill_trade json event
      else if same_bytes type (bytes "quote")
      then fill_quote json event
      else if same_bytes type (bytes "orderbook")
      then fill_orderbook json event
      else some event

  -- `none` stands for the exception of a member of another type.
  unfoldable pub read_event : Document D → FeedEvent D → Option (FeedEvent D)
  read_event json event =
      if json.is_object && json.contains "type"
      then (json.get_string "type" >>= λ type. fill_event json type event)
      else some event

-- What one turn of the loop gets from `select` and `recv`.
pub data Activity : Type 0 where
  select_failed : Network → Activity
  timed_out try_again : Activity
  hung_up : Network → Activity
  arrived : Bytes → Activity

module _ {R D : Type 0} ⦃d : Double D⦄ ⦃ring : RingBuffer R (FeedEvent D)⦄ (parse : Parser D)
    (blank : FeedEvent D) where
  abbrev pub dropped : FeedAdapter R → FeedAdapter R
  dropped a = record a { messages_dropped = inc64 a.messages_dropped }

  -- The event is counted and published.
  abbrev pub publish_read : Option (FeedEvent D) → FeedAdapter R → FeedAdapter R
  publish_read none a = dropped a
  publish_read (some event) a = record a {
    messages_received = inc64 a.messages_received;
    ring_buffer = publish_event a.ring_buffer (λ slot. event);
  }

  -- The sequence number is taken before the members are read. The clock is read for each message;
  -- its readings are given by that number.
  abbrev pub publish_parsed : Option (Document D) → (ℕ → ℕ) → FeedAdapter R → FeedAdapter R
  publish_parsed none clock a = dropped a
  publish_parsed (some json) clock a =
      publish_read
        (read_event json
          (record blank { timestamp = clock a.last_sequence; sequence = a.last_sequence }))
        (record a { last_sequence = inc64 a.last_sequence })

  -- A message of the buffer: `parseMarketDataMessage`, then `publishEvent`.
  unfoldable pub handle_message : (ℕ → ℕ) → Bytes → FeedAdapter R → FeedAdapter R
  handle_message clock message a = publish_parsed (parse message) clock a

  abbrev pub handle_activity : (ℕ → ℕ) → Activity → FeedAdapter R → FeedAdapter R
  handle_activity clock (select_failed network) a = handle_reconnect network a
  handle_activity clock timed_out a = a
  handle_activity clock try_again a = a
  handle_activity clock (hung_up network) a = handle_reconnect network a
  handle_activity clock (arrived chunk) a =
      let (rest, a') = receive (handle_message clock) chunk (a.message_buffer, a) in
      record a' { message_buffer = rest }

  -- One turn of `runEventLoop`.
  unfoldable pub run_round : (ℕ → ℕ) → Activity → FeedAdapter R → FeedAdapter R
  run_round clock activity a = if a.running then handle_activity clock activity a else a

  -- Turns one after the other.
  abbrev pub run_rounds : (ℕ → ℕ) → List Activity → FeedAdapter R → FeedAdapter R
  run_rounds clock [] a = a
  run_rounds clock (activity ∷ activities) a =
      run_rounds clock activities (run_round clock activity a)
