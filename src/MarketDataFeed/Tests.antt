-- ===== src/MarketDataFeed/Tests.antt =====
-- The adapter on concrete values: the ring buffer is the list of its events.
use challenge_8a2ffd.Common.{
  ℕ, ◌+◌, ◌≡◌, refl, if◌then◌else◌, true, false, Option, none, some, List, [], ◌∷◌, ◌++◌, arith,
  length, map, replicate,
}
use challenge_8a2ffd.Common.Fixed.{Fixed, fixed_double}
use challenge_8a2ffd.Common.Int.{pos}
use challenge_8a2ffd.Sharding.Hash.{Bytes}
use challenge_8a2ffd.Texts.{bytes, same_bytes}
use challenge_8a2ffd.Adapters.Address.{parse_url, stripped_url, after_protocol, split_last_colon}
use challenge_8a2ffd.Adapters.Connection.{Network, dial}
use challenge_8a2ffd.Adapters.Document.{Document}
use challenge_8a2ffd.Adapters.Framing.{newline_pos, scan}
use challenge_8a2ffd.Adapters.Ring.{RingBuffer}
use challenge_8a2ffd.MarketDataFeed.{
  FeedEvent, FeedAdapter, trade, buy, select_failed, timed_out, hung_up, arrived, run_rounds,
}
use challenge_8a2ffd.MarketDataFeed.Counting.{IsCounted}
use challenge_8a2ffd.MarketDataFeed.Stream.{run_rounds-IsCounted}
use challenge_8a2ffd.MarketDataFeed.Reconnecting.{IsLost, run_rounds-IsLost, run_rounds-stops}

abbrev zero_price : Fixed
zero_price = fixed_double.lit 0 1

abbrev blank : FeedEvent Fixed
blank = record {
  timestamp = 0;
  sequence = 0;
  event_type = trade;
  instrument_id = [];
  price = zero_price;
  quantity = pos 0;
  side = buy;
  bid_price = zero_price;
  ask_price = zero_price;
  bid_size = pos 0;
  ask_size = pos 0;
}

abbrev Events : Type 0
Events = List (FeedEvent Fixed)

instance feed_ring : RingBuffer Events (FeedEvent Fixed)
feed_ring = record {
  next = λ events. (length events, events);
  write = λ events sequence event. some (events ++ (event blank ∷ []));
  publish = λ events sequence. events;
}

-- `{}` is a message without a type, all else is no JSON.
abbrev empty_object : Document Fixed
empty_object = record {
  is_object = true;
  contains = λ key. false;
  get_string = λ key. none;
  get_double = λ key. none;
  get_int = λ key. none;
  get_bool = λ key. none;
}

abbrev reads : Bytes → Option (Document Fixed)
reads text = if same_bytes text (bytes "{}") then some empty_object else none

abbrev feed : FeedAdapter Events
feed = record {
  ring_buffer = some [];
  config = record { feed_url = bytes "tcp://feed:9000"; default_port = pos 9000 };
  running = true;
  socket_fd = pos 3;
  reconnect_attempts = 0;
  last_sequence = 0;
  messages_received = 0;
  messages_dropped = 0;
  message_buffer = [];
}

-- A reading for each number.
abbrev ticks : ℕ → ℕ
ticks n = 1000 + n

abbrev two_messages : List Bytes
two_messages = bytes "{}" ∷ bytes "{x" ∷ []

-- The reads cut the first message and the empty line after it; the last message is not finished.
abbrev reads_of_two : List Bytes
reads_of_two = (123 ∷ []) ∷ (125 ∷ 10 ∷ []) ∷ (10 ∷ 123 ∷ 120 ∷ 10 ∷ 10 ∷ 123 ∷ []) ∷ []

run_rounds-IsCounted_example :
    let a' = run_rounds reads blank ticks (map arrived reads_of_two) feed in
    IsCounted reads blank 2 feed a' × (a'.message_buffer ≡ (123 ∷ []))
unfolding newline_pos scan
run_rounds-IsCounted_example =
    run_rounds-IsCounted reads blank ticks reads_of_two two_messages (123 ∷ []) feed refl refl refl
      (
        (omega arith, ((λ e _. absurd (omega arith)), omega arith)),
        ((omega arith, ((λ e _. absurd (omega arith)), omega arith)), tt),
      )
      refl (omega arith) (omega arith)

-- No host is found.
abbrev nowhere : Network
nowhere = record { opened = pos 4; resolves = λ host. false; connects = λ host port. false }

run_rounds-IsLost_example :
    IsLost 1 (run_rounds reads blank ticks (hung_up nowhere ∷ replicate 100 timed_out) feed)
unfolding dial parse_url stripped_url after_protocol split_last_colon
run_rounds-IsLost_example =
    run_rounds-IsLost reads blank ticks 100 nowhere feed refl (omega arith) refl

run_rounds-stops_example :
    (run_rounds reads blank ticks
      (map select_failed (nowhere ∷ nowhere ∷ []))
      (record feed { reconnect_attempts = 9 })).running
    ≡ false
unfolding dial parse_url stripped_url after_protocol split_last_colon
run_rounds-stops_example =
    run_rounds-stops reads blank ticks (nowhere ∷ nowhere ∷ [])
      (record feed { reconnect_attempts = 9 }) (refl, (refl, tt)) (omega arith) (omega arith)
