-- ===== src/RiskEngine/Checks.antt =====
-- `evaluateRiskLimits`, `evaluateVaR` and `checkKillSwitchAnomaly` of src/core/RiskEngine.cpp.
use challenge_8a2ffd.Common.{ℕ, Bool, true, not, ◌&&◌, none, some, ltb, if◌then◌else◌, sub64, inc64}
use challenge_8a2ffd.Common.Double.{Double}
use challenge_8a2ffd.MarketData.Cache.{get_order_book}
use challenge_8a2ffd.RiskEngine.Types.{
  RiskEvaluationResult, reject, review, Order, notional_double, default_result,
  rejection_reason_limit_exceeded, rejection_reason_no_liquidity, rejection_reason_var_breach,
}
use challenge_8a2ffd.RiskEngine.State.{RiskLimits, VarModel, RiskEngine, anomaly_window_ms}
use challenge_8a2ffd.RiskEngine.Breaker.{update_circuit_breaker_state}

module _ {D : Type 0} ⦃d : Double D⦄ where
  -- The exposure with the order added to it.
  unfoldable pub new_exposure : RiskLimits D → Order → D
  new_exposure limits o =
      d.add (limits.get_current_exposure o.trader_id o.strategy_id o.instrument_id)
        (notional_double o)

  abbrev pub measured : D → D → RiskEvaluationResult D
  measured exposure limit = record default_result {
    exposure = exposure;
    limit = limit;
    utilization_pct = d.mul (d.div exposure limit) (d.lit 100 1);
  }

module _ {D : Type 0} ⦃d : Double D⦄ where
  abbrev pub no_liquidity : RiskEvaluationResult D
  no_liquidity = record default_result {
    decision = review;
    rejection_reason = rejection_reason_no_liquidity;
  }

  abbrev pub var_rejection : RiskEvaluationResult D
  var_rejection = record default_result {
    decision = reject;
    rejection_reason = rejection_reason_var_breach;
  }

module _ {D V : Type 0} ⦃d : Double D⦄ where
  -- With the clock's milliseconds for the breach.
  unfoldable pub evaluate_risk_limits :
      RiskLimits D → RiskEngine D V → Order → ℕ → RiskEngine D V × RiskEvaluationResult D
  evaluate_risk_limits limits s o breach_ms =
      elim (limits.get_limit o.trader_id o.strategy_id o.instrument_id) [
        | none ↦ (s, default_result)
        | some limit ↦
            let exposure = new_exposure limits o in
            if d.lt limit exposure
            then (
              update_circuit_breaker_state s o.instrument_id true breach_ms,
              record (measured exposure limit) {
                decision = reject;
                rejection_reason = rejection_reason_limit_exceeded;
              },
            )
            else if d.lt (d.mul limit (d.lit 8 10)) exposure
            then (s, record (measured exposure limit) { decision = review })
            else (s, measured exposure limit)
      ]

  -- The comparison of `evaluateVaR`, true on a breach.
  unfoldable pub breaches_var : VarModel D V → V → Order → Bool
  breaches_var var v o = d.lt (var.get_var_limit v) (
      d.add (var.calculate_var v o.instrument_id)
        (var.estimate_potential_loss v o.instrument_id (notional_double o)))

  unfoldable pub evaluate_var : VarModel D V → RiskEngine D V → Order → RiskEvaluationResult D
  evaluate_var var s o = elim s.var_model [
    | none ↦ default_result
    | some v ↦ elim s.market_data_cache [
      | none ↦ default_result
      | some cache ↦ elim (get_order_book cache o.instrument_id) [
        | none ↦ no_liquidity
        | some book ↦
            if book.stale
            then no_liquidity
            else if breaches_var var v o
            then var_rejection
            else default_result
      ]
    ]
  ]

  -- More than kAnomalyThresholdDeviation * 10 anomalies in the window that ended.
  unfoldable pub too_many_anomalies : RiskEngine D V → Bool
  too_many_anomalies s = d.lt (d.mul (d.lit 3 1) (d.of_ℕ 10)) (d.of_ℕ s.anomaly_count)

  -- More than 10000 orders a second since the window began, counting all orders ever processed.
  unfoldable pub too_fast : RiskEngine D V → ℕ → Bool
  too_fast s now_ms = d.lt (d.lit 10000 1) (
      d.div (d.of_ℕ s.processed_orders)
        (d.div (d.of_ℕ (sub64 now_ms s.anomaly_window_start)) (d.lit 1000 1)))

  abbrev pub trip : RiskEngine D V → RiskEngine D V
  trip s = record s {
    kill_switch_active = true;
    kill_switch_trigger_count = inc64 s.kill_switch_trigger_count;
  }

  unfoldable pub check_kill_switch_anomaly : RiskEngine D V → ℕ → RiskEngine D V
  check_kill_switch_anomaly s now_ms =
      if ltb anomaly_window_ms (sub64 now_ms s.anomaly_window_start)
      then (record judged { anomaly_window_start = now_ms; anomaly_count = 0 })
      else if too_fast s now_ms
      then (record s { anomaly_count = inc64 s.anomaly_count })
      else s
    where
      judged : RiskEngine D V
      judged = if too_many_anomalies s && not s.kill_switch_active then trip s else s
