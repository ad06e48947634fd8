-- ===== src/RiskEngine/Types.antt =====
-- The types of src/core/RiskEngine.h, over the type `D` of a `double`. `Order::type_` is left out:
-- its enumeration is declared in no file of the repository, and the engine never reads it.
use challenge_8a2ffd.Common.{ℕ, String, Bool, true, false, ◌&&◌, ltb}
use challenge_8a2ffd.Common.Int.{ℤ, pos, ◌*ℤ◌, ◌/ℤ◌, ltb_ℤ}
use challenge_8a2ffd.Common.Double.{Double}
use challenge_8a2ffd.MarketData.Book.{Side, price_multiplier}

pub data RiskDecision : Type 0 where
  accept reject reduce review : RiskDecision

-- `OPEN` is `opened`, since `open` is a reserved word.
pub data CircuitBreakerState : Type 0 where
  closed opened half_open : CircuitBreakerState

abbrev pub is_reject : RiskDecision → Bool
is_reject reject = true
is_reject accept = false
is_reject reduce = false
is_reject review = false

abbrev pub rejection_reason_limit_exceeded : String
rejection_reason_limit_exceeded = "LIMIT_EXCEEDED"

abbrev pub rejection_reason_circuit_breaker : String
rejection_reason_circuit_breaker = "CIRCUIT_BREAKER_OPEN"

abbrev pub rejection_reason_var_breach : String
rejection_reason_var_breach = "VAR_LIMIT_BREACH"

abbrev pub rejection_reason_kill_switch : String
rejection_reason_kill_switch = "KILL_SWITCH_TRIGGERED"

abbrev pub rejection_reason_invalid_order : String
rejection_reason_invalid_order = "INVALID_ORDER"

abbrev pub rejection_reason_no_liquidity : String
rejection_reason_no_liquidity = "NO_LIQUIDITY"

pub record RiskEvaluationResult (D : Type 0) : Type 0 where
  pub decision : RiskDecision
  pub exposure : D
  pub limit : D
  pub utilization_pct : D
  pub circuit_breaker : CircuitBreakerState
  pub kill_switch_triggered : Bool
  pub rejection_reason : String
  pub evaluation_latency_ns : ℕ
  pub timestamp : ℕ

-- A result with the initialisers of its fields.
abbrev pub default_result : {D : Type 0} ⦃d : Double D⦄ → RiskEvaluationResult D
default_result ⦃d⦄ = record {
  decision = accept;
  exposure = d.lit 0 1;
  limit = d.lit 0 1;
  utilization_pct = d.lit 0 1;
  circuit_breaker = closed;
  kill_switch_triggered = false;
  rejection_reason = "";
  evaluation_latency_ns = 0;
  timestamp = 0;
}

pub record Order : Type 0 where
  pub order_id : ℕ
  pub instrument_id : ℕ
  pub trader_id : ℕ
  pub strategy_id : ℕ
  pub side : Side
  pub price : ℤ
  pub quantity : ℤ
  pub timestamp : ℕ

-- `Order::isValid`.
unfoldable pub is_valid : Order → Bool
is_valid o =
    ltb 0 o.order_id && ltb 0 o.instrument_id && ltb_ℤ (pos 0) o.quantity && ltb_ℤ (pos 0) o.price

-- `Order::notional`, where the product fits its 64 bits.
unfoldable pub notional : Order → ℤ
notional o = o.quantity *ℤ o.price /ℤ price_multiplier

-- `static_cast<double>(order.notional()) / 1000000.0`.
unfoldable pub notional_double : {D : Type 0} ⦃d : Double D⦄ → Order → D
notional_double ⦃d⦄ o = d.div (d.of_ℤ (notional o)) (d.lit 1000000 1)
