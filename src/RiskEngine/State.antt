-- ===== src/RiskEngine/State.antt =====
-- The members of `RiskEngine`, its constructor and its accessors (src/core/RiskEngine.h and .cpp).
-- `domain::RiskLimits` and `domain::VaRModel`, as the engine calls them, are in no file of the
-- repository: records of the operations that it calls stand for them.
use challenge_8a2ffd.Common.{
  ℕ, Bool, false, Option, none, some, List, [], ◌∷◌, ltb, if◌then◌else◌, update, replicate, ◌+◌,
}
use challenge_8a2ffd.MarketData.Cache.{MarketDataCache, update_from_event}
use challenge_8a2ffd.MarketData.Event.{MarketDataEvent}
use challenge_8a2ffd.RiskEngine.Types.{RiskEvaluationResult, CircuitBreakerState, closed, opened}

-- The limits by trader, strategy and instrument, as they stand at one call.
pub record RiskLimits (D : Type 0) : Type 0 where
  pub get_limit : ℕ → ℕ → ℕ → Option D
  pub get_current_exposure : ℕ → ℕ → ℕ → D

-- The model of value at risk, over a type `V` of its states.
pub record VarModel (D V : Type 0) : Type 0 where
  pub calculate_var : V → ℕ → D
  pub estimate_potential_loss : V → ℕ → D → D
  pub get_var_limit : V → D
  pub update_volatility : V → ℕ → ℕ → V

abbrev pub max_instruments : ℕ
max_instruments = 10000

abbrev pub latency_window_size : ℕ
latency_window_size = 1000

abbrev pub circuit_breaker_reset_timeout_ms : ℕ
circuit_breaker_reset_timeout_ms = 5000

abbrev pub anomaly_window_ms : ℕ
anomaly_window_ms = 60000

pub record CircuitBreakerData : Type 0 where
  pub state : CircuitBreakerState
  pub breach_count : ℕ
  pub last_breach_timestamp : ℕ
  pub last_reset_timestamp : ℕ

abbrev pub fresh_breaker : CircuitBreakerData
fresh_breaker = record {
  state = closed;
  breach_count = 0;
  last_breach_timestamp = 0;
  last_reset_timestamp = 0;
}

-- `CircuitBreakerData::reset`, with the clock's milliseconds.
abbrev pub reset_breaker : CircuitBreakerData → ℕ → CircuitBreakerData
reset_breaker cb now_ms = record cb {
  state = closed;
  breach_count = 0;
  last_reset_timestamp = now_ms;
}

-- The vector of breakers is its contents by index: each access is behind a test of the index. The
-- handler is a number that names it, and `events` is the list of the calls made to handlers.
pub record RiskEngine (D V : Type 0) : Type 0 where
  pub market_data_cache : Option MarketDataCache
  pub var_model : Option V
  pub shard_id : ℕ
  pub circuit_breakers : ℕ → CircuitBreakerData
  pub kill_switch_active : Bool
  pub kill_switch_trigger_count : ℕ
  pub anomaly_window_start : ℕ
  pub anomaly_count : ℕ
  pub processed_orders : ℕ
  pub rejected_orders : ℕ
  pub latency_window : List ℕ
  pub latency_index : ℕ
  pub event_handler : Option ℕ
  pub events : List (ℕ × RiskEvaluationResult D)

-- What the clocks say at the points of `evaluateOrder` that read them.
pub record Readings : Type 0 where
  pub start_ns : ℕ
  pub end_ns : ℕ
  pub breaker_ms : ℕ
  pub breach_ms : ℕ
  pub anomaly_ms : ℕ
  pub stamp_us : ℕ

module _ {D V : Type 0} where
  abbrev pub initial_engine : MarketDataCache → V → ℕ → ℕ → RiskEngine D V
  initial_engine cache var_model shard_id now_ms = record {
    market_data_cache = some cache;
    var_model = some var_model;
    shard_id = shard_id;
    circuit_breakers = λ _. fresh_breaker;
    kill_switch_active = false;
    kill_switch_trigger_count = 0;
    anomaly_window_start = now_ms;
    anomaly_count = 0;
    processed_orders = 0;
    rejected_orders = 0;
    latency_window = replicate latency_window_size 0;
    latency_index = 0;
    event_handler = none;
    events = [];
  }

  -- The constructor. `none` is the exception on a null dependency.
  unfoldable pub construct :
      Option MarketDataCache → Option (RiskLimits D) → Option V → ℕ → ℕ → Option (RiskEngine D V)
  construct (some cache) (some limits) (some v) shard_id now_ms =
      some (initial_engine cache v shard_id now_ms)
  construct (some cache) (some limits) none shard_id now_ms = none
  construct (some cache) none v shard_id now_ms = none
  construct none limits v shard_id now_ms = none

  abbrev pub set_breaker : RiskEngine D V → ℕ → CircuitBreakerData → RiskEngine D V
  set_breaker s i cb = record s { circuit_breakers = update s.circuit_breakers i cb }

  -- An instrument past the vector reads as open.
  unfoldable pub get_circuit_breaker_state : RiskEngine D V → ℕ → CircuitBreakerState
  get_circuit_breaker_state s i =
      if ltb i max_instruments then (s.circuit_breakers i).state else opened

  unfoldable pub reset_circuit_breaker : RiskEngine D V → ℕ → ℕ → RiskEngine D V
  reset_circuit_breaker s i now_ms =
      if ltb i max_instruments
      then set_breaker s i (reset_breaker (s.circuit_breakers i) now_ms)
      else s

  unfoldable pub reset_kill_switch : RiskEngine D V → ℕ → RiskEngine D V
  reset_kill_switch s now_ms = record s {
    kill_switch_active = false;
    kill_switch_trigger_count = 0;
    anomaly_window_start = now_ms;
    anomaly_count = 0;
  }

  unfoldable pub set_risk_event_handler : RiskEngine D V → ℕ → RiskEngine D V
  set_risk_event_handler s handler = record s { event_handler = some handler }

  -- `onMarketData`, with the clock's reading at each trade of the event.
  unfoldable pub on_market_data :
      VarModel D V → RiskEngine D V → (ℕ → ℕ) → MarketDataEvent → RiskEngine D V
  on_market_data var s clock e = record s {
    market_data_cache = elim s.market_data_cache [
      | none ↦ none
      | some cache ↦ some (update_from_event cache clock e)
    ];
    var_model = elim s.var_model [
      | none ↦ none
      | some v ↦ some (var.update_volatility v e.instrument_id e.timestamp)
    ];
  }

-- The sum of `getAvgLatencyUs`, before it is divided.
unfoldable pub total_latency : List ℕ → ℕ → ℕ
total_latency [] total = total
total_latency (l ∷ ls) total = total_latency ls (total + l)
