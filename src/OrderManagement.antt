-- ===== src/OrderManagement.antt =====
-- `OrderManagementAdapter` (src/adapters/OrderManagementAdapter.cpp): its state, the connection and
-- the orders that go out. The breaker manager, the ring buffer, the JSON library and the network are
-- parameters.
pub mod Responses
pub mod Submission
pub mod Answers
pub mod Settlement
pub mod Runs
pub mod Identifiers
pub mod Tests
use challenge_8a2ffd.Common.{
  ℕ, ◌+◌, ◌^◌, ◌%◌, ◌≡◌, Bool, true, false, not, String, Option, none, some, List, [], ◌∷◌, ◌++◌,
  arith, length, leb, if◌then◌else◌, inc64,
}
use challenge_8a2ffd.Common.Int.{ℤ, pos, negsuc}
use challenge_8a2ffd.Common.Json.{◌>>=◌}
use challenge_8a2ffd.Sharding.Hash.{Bytes, to_string}
use challenge_8a2ffd.Texts.{bytes}
use challenge_8a2ffd.Texts.Keyed.{Keyed, assign}
use challenge_8a2ffd.Texts.Numbers.{stoull}
use challenge_8a2ffd.Adapters.Address.{parse_exchange_url}
use challenge_8a2ffd.Adapters.Connection.{Network, is_open, closed, dial}
use challenge_8a2ffd.Adapters.Document.{Value, text, number, integer}
use challenge_8a2ffd.Adapters.Ring.{RingBuffer, publish_event}

abbrev pub max_pending_orders : ℕ
max_pending_orders = 10000

pub data OrderSide : Type 0 where
  buy sell : OrderSide

pub data OrderType : Type 0 where
  market limit : OrderType

-- The two statuses that the adapter sets, and the one an order comes with.
pub data OrderStatus : Type 0 where
  pending filled rejected : OrderStatus

pub data OrderEventType : Type 0 where
  order_submitted order_accepted order_rejected : OrderEventType

-- Times are milliseconds.
pub record Order (D : Type 0) : Type 0 where
  pub order_id : Bytes
  pub instrument_id : Bytes
  pub side : OrderSide
  pub order_type : OrderType
  pub quantity : D
  pub price : D
  pub trader_id : Bytes
  pub strategy_id : Bytes
  pub submitted_at : ℕ
  pub status : OrderStatus

pub record OrderEvent (D : Type 0) : Type 0 where
  pub order_id : Bytes
  pub instrument_id : Bytes
  pub event_type : OrderEventType
  pub timestamp : ℕ
  pub quantity : D
  pub price : D

pub record ExchangeConfig : Type 0 where
  pub exchange_url : Bytes
  pub instruments : List Bytes
  pub circuit_breaker_threshold : ℕ
  pub circuit_breaker_timeout : ℕ

-- What the adapter asks of the `CircuitBreakerManager`; `is_open` is `none` without a breaker.
pub record BreakerManager (M : Type 0) : Type 0 where
  pub get_or_create : M → Bytes → ℕ → ℕ → M
  pub is_breaker_open : M → Bytes → Option Bool
  pub record_rejection : M → Bytes → M

pub record Adapter (R M D : Type 0) : Type 0 where
  pub order_ring_buffer : Option R
  pub circuit_breaker_manager : Option M
  pub config : ExchangeConfig
  pub running : Bool
  pub exchange_socket : ℤ
  pub orders_sent : ℕ
  pub orders_accepted : ℕ
  pub orders_rejected : ℕ
  pub last_order_id : ℕ
  pub pending_orders : Keyed (Order D)
  pub response_buffer : Bytes

pub record OrderResult : Type 0 where
  pub success : Bool
  pub error : String
  pub order_number : ℕ

-- The clock's values during one call.
pub record Times : Type 0 where
  pub generated_at : ℕ
  pub submitted_at : ℕ
  pub published_at : ℕ

unfoldable pub create_breakers :
    {M : Type 0} ⦃b : BreakerManager M⦄ → ExchangeConfig → List Bytes → M → M
create_breakers ⦃b⦄ config [] manager = manager
create_breakers ⦃b⦄ config (instrument ∷ instruments) manager = create_breakers config instruments (
    b.get_or_create manager instrument config.circuit_breaker_threshold
      config.circuit_breaker_timeout)

-- The bytes of "-" between the time and the number.
unfoldable pub order_key : ℕ → ℕ → Bytes
order_key timestamp id = to_string timestamp ++ (45 ∷ to_string id)

abbrev pub side_text : OrderSide → Bytes
side_text buy = bytes "buy"
side_text sell = bytes "sell"

abbrev pub type_text : OrderType → Bytes
type_text market = bytes "market"
type_text limit = bytes "limit"

abbrev pub refused : String → Option OrderResult
refused error = some (record { success = false; error = error; order_number = 0 })

module _ {D : Type 0} where
  unfoldable pub serialize_order : Order D → List (String × Value D)
  serialize_order order =
      ("order_id", text order.order_id)
      ∷ ("instrument_id", text order.instrument_id)
      ∷ ("side", text (side_text order.side))
      ∷ ("type", text (type_text order.order_type))
      ∷ ("quantity", number order.quantity)
      ∷ ("price", number order.price)
      ∷ ("trader_id", text order.trader_id)
      ∷ ("strategy_id", text order.strategy_id)
      ∷ ("timestamp", integer (pos order.submitted_at))
      ∷ []

  -- The fields of the slot that are written.
  abbrev pub event_of : Order D → OrderEventType → ℕ → OrderEvent D → OrderEvent D
  event_of order event_type time slot = record slot {
    order_id = order.order_id;
    instrument_id = order.instrument_id;
    event_type = event_type;
    timestamp = time;
    quantity = order.quantity;
    price = order.price;
  }

module _ {R M D : Type 0} ⦃ring : RingBuffer R (OrderEvent D)⦄ ⦃b : BreakerManager M⦄ where
  unfoldable pub initialize_circuit_breakers : Adapter R M D → Adapter R M D
  initialize_circuit_breakers a = elim a.circuit_breaker_manager [
    | none ↦ a
    | some manager ↦ record a {
      circuit_breaker_manager = some (create_breakers a.config a.config.instruments manager);
    }
  ]

  -- The constructor; the header gives the socket its first value.
  unfoldable pub constructed : Option R → Option M → ExchangeConfig → ℤ → Adapter R M D
  constructed ring_buffer manager config socket = initialize_circuit_breakers (record {
    order_ring_buffer = ring_buffer;
    circuit_breaker_manager = manager;
    config = config;
    running = false;
    exchange_socket = socket;
    orders_sent = 0;
    orders_accepted = 0;
    orders_rejected = 0;
    last_order_id = 0;
    pending_orders = [];
    response_buffer = [];
  })

  unfoldable pub connect : Network → Adapter R M D → Adapter R M D × Bool
  connect network a =
      if is_open a.exchange_socket
      then (a, true)
      else let socket = dial network (parse_exchange_url a.config.exchange_url) in
        (record a { exchange_socket = socket }, is_open socket)

  unfoldable pub disconnect : Adapter R M D → Adapter R M D
  disconnect a = if is_open a.exchange_socket then record a { exchange_socket = closed } else a

  -- The thread that is started has an empty buffer.
  abbrev pub finish_start : Adapter R M D × Bool → Adapter R M D
  finish_start (a, true) = record a { response_buffer = [] }
  finish_start (a, false) = record a { running = false }

  unfoldable pub start : Network → Adapter R M D → Adapter R M D
  start network a =
      if a.running then a else finish_start (connect network (record a { running = true }))

  unfoldable pub stop : Adapter R M D → Adapter R M D
  stop a = if a.running then disconnect (record a { running = false }) else a

  unfoldable pub publish_order_event : Order D → OrderEventType → ℕ → Adapter R M D → Adapter R M D
  publish_order_event order event_type time a = record a {
    order_ring_buffer = publish_event a.order_ring_buffer (event_of order event_type time);
  }

  -- A breaker that there is and that is open.
  abbrev pub is_blocked : Adapter R M D → Bytes → Bool
  is_blocked a instrument = elim a.circuit_breaker_manager [
    | none ↦ false
    | some manager ↦ elim (b.is_breaker_open manager instrument) [
      | none ↦ false
      | some state ↦ state
    ]
  ]

  -- The result is `none` where `std::stoull(order_id)` throws.
  unfoldable pub submit_order :
      (List (String × Value D) → Bytes)
      → (Bytes → ℤ)
      → Times
      → Order D
      → Adapter R M D
      → Adapter R M D × Option OrderResult
  submit_order dump send times order a =
      if not a.running
      then (a, refused "Adapter not running")
      else if is_blocked a order.instrument_id
      then (a, refused "Circuit breaker open")
      else if leb max_pending_orders (length a.pending_orders)
      then (a, refused "Too many pending orders")
      else let key = order_key times.generated_at a.last_order_id in
        let counted = record a { last_order_id = inc64 a.last_order_id } in
        let order' = record order { order_id = key; submitted_at = times.submitted_at } in
        if not (is_open a.exchange_socket)
        then (counted, refused "Not connected to exchange")
        else if not (is_open (send (dump (serialize_order order') ++ (10 ∷ 10 ∷ []))))
        then (counted, refused "Failed to send order")
        else (
          publish_order_event order' order_submitted times.published_at (record counted {
            pending_orders = assign a.pending_orders key order';
            orders_sent = inc64 a.orders_sent;
          }),
          stoull key >>= λ n. some (record { success = true; error = ""; order_number = n }),
        )
