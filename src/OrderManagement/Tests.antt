-- ===== src/OrderManagement/Tests.antt =====
-- The adapter on concrete values: quantities are numbers, the ring buffer is the list of its events
-- and the breaker manager the list of instruments with rejections.
use challenge_8a2ffd.Common.{
  ℕ, ◌+◌, ◌≤◌, ◌≡◌, refl, true, String, Option, none, some, List, [], ◌∷◌, ◌++◌, arith, length,
}
use text.Mathlib.Text.{◌==◌}
use challenge_8a2ffd.Common.{◌||◌, if◌then◌else◌}
use challenge_8a2ffd.Common.Int.{ℤ, pos, negsuc}
use challenge_8a2ffd.Sharding.Hash.{Bytes}
use challenge_8a2ffd.Texts.{bytes}
use challenge_8a2ffd.Texts.Keyed.{find}
use challenge_8a2ffd.Adapters.Connection.{Network}
use challenge_8a2ffd.Adapters.Document.{Document, Value}
use challenge_8a2ffd.Adapters.Ring.{RingBuffer}
use challenge_8a2ffd.OrderManagement.{
  Order, OrderEvent, ExchangeConfig, BreakerManager, Adapter, Times, buy, limit, pending,
  order_submitted, constructed, submit_order, start, initialize_circuit_breakers,
  publish_order_event,
}
use challenge_8a2ffd.OrderManagement.Responses.{Response, process_exchange_response, read_response}
use challenge_8a2ffd.OrderManagement.Answers.{IsSettled, process_exchange_response-Answered}
use challenge_8a2ffd.OrderManagement.Runs.{created, steps, submits, starts, Reaches-accounts}

abbrev blank : OrderEvent ℕ
blank = record {
  order_id = [];
  instrument_id = [];
  event_type = order_submitted;
  timestamp = 0;
  quantity = 0;
  price = 0;
}

abbrev Events : Type 0
Events = List (OrderEvent ℕ)

instance list_ring : RingBuffer Events (OrderEvent ℕ)
list_ring = record {
  next = λ events. (length events, events);
  write = λ events sequence event. some (events ++ (event blank ∷ []));
  publish = λ events sequence. events;
}

instance list_manager : BreakerManager (List Bytes)
list_manager = record {
  get_or_create = λ manager instrument threshold timeout. manager;
  is_breaker_open = λ manager instrument. none;
  record_rejection = λ manager instrument. instrument ∷ manager;
}

abbrev TestAdapter : Type 0
TestAdapter = Adapter Events (List Bytes) ℕ

abbrev exchange : ExchangeConfig
exchange = record {
  exchange_url = bytes "tcp://host:9001";
  instruments = [];
  circuit_breaker_threshold = 5;
  circuit_breaker_timeout = 1000;
}

abbrev new_adapter : TestAdapter
new_adapter = constructed (some []) (some []) exchange (negsuc 0)

abbrev some_order : Order ℕ
some_order = record {
  order_id = [];
  instrument_id = bytes "AAPL";
  side = buy;
  order_type = limit;
  quantity = 10;
  price = 100;
  trader_id = bytes "t";
  strategy_id = bytes "s";
  submitted_at = 0;
  status = pending;
}

-- One order is pending.
abbrev with_one_order : TestAdapter
with_one_order = record new_adapter {
  running = true;
  exchange_socket = pos 3;
  orders_sent = 1;
  last_order_id = 1;
  pending_orders = (bytes "7-0", some_order) ∷ [];
}

abbrev at_seven : Times
at_seven = record { generated_at = 7; submitted_at = 7; published_at = 7 }

abbrev no_text : List (String × Value ℕ) → Bytes
no_text fields = bytes "{}"

abbrev all_sent : Bytes → ℤ
all_sent message = pos (length message)

second_order_is_sent :
    (submit_order no_text all_sent at_seven some_order with_one_order).0.orders_sent ≡ 2
unfolding submit_order constructed initialize_circuit_breakers list_manager publish_order_event
second_order_is_sent = refl

abbrev reachable : Network
reachable = record { opened = pos 3; resolves = λ host. true; connects = λ host port. true }

abbrev after_one_order : TestAdapter
after_one_order =
    (submit_order no_text all_sent at_seven some_order (start reachable new_adapter)).0

Reaches-accounts_example :
    (length after_one_order.pending_orders ≤ 10000)
    × (after_one_order.orders_accepted + length after_one_order.pending_orders
        ≤ after_one_order.orders_sent)
Reaches-accounts_example =
    Reaches-accounts
      (steps (steps (created (some []) (some []) exchange (negsuc 0)) (starts reachable))
        (submits no_text all_sent at_seven some_order))
      (omega arith)

-- `{"order_id": "7-0", "status": "accepted"}`
abbrev accepted_json : Document ℕ
accepted_json = record {
  is_object = true;
  contains = λ key. key == "order_id" || key == "status";
  get_string = λ key. some (if key == "order_id" then bytes "7-0" else bytes "accepted");
  get_double = λ key. none;
  get_int = λ key. none;
  get_bool = λ key. none;
}

abbrev accepts : Bytes → Option (Document ℕ)
accepts text = some accepted_json

abbrev accepted_response : Response
accepted_response = record { order_id = bytes "7-0"; status = bytes "accepted"; instrument_id = [] }

process_exchange_response-Answered_example :
    IsSettled accepted_response 9 some_order with_one_order
      (process_exchange_response accepts 9 (bytes "{}") with_one_order)
unfolding read_response find
process_exchange_response-Answered_example =
    process_exchange_response-Answered with_one_order accepts 9 (bytes "{}") {json = accepted_json}
      {response = accepted_response} {order = some_order} (refl, tt) refl refl refl
