-- ===== src/RiskEngine/Evaluate.antt =====
-- `evaluateOrder`, `recordLatency` and `emitRiskEvent` of src/core/RiskEngine.cpp.
pub mod Cases
pub mod Admission
pub mod Decision
pub mod Breakers
pub mod Counters
pub mod KillSwitch
use challenge_8a2ffd.Common.{
  ℕ, ◌+◌, ◌%◌, ◌≡◌, Bool, true, false, not, Option, none, some, List, [], ◌∷◌, ◌++◌, if◌then◌else◌,
  set, sub64, inc64,
}
use challenge_8a2ffd.Common.Double.{Double}
use challenge_8a2ffd.RiskEngine.Types.{
  RiskEvaluationResult, accept, reject, is_reject, Order, is_valid, default_result,
  rejection_reason_invalid_order, rejection_reason_kill_switch,
}
use challenge_8a2ffd.RiskEngine.State.{
  RiskLimits, VarModel, RiskEngine, Readings, latency_window_size,
}
use challenge_8a2ffd.RiskEngine.Breaker.{check_circuit_breaker}
use challenge_8a2ffd.RiskEngine.Checks.{
  evaluate_risk_limits, evaluate_var, check_kill_switch_anomaly,
}

abbrev pub latency : Readings → ℕ
latency r = sub64 r.end_ns r.start_ns

module _ {D : Type 0} ⦃d : Double D⦄ where
  abbrev pub invalid_rejection : ℕ → RiskEvaluationResult D
  invalid_rejection stamp_us = record default_result {
    decision = reject;
    rejection_reason = rejection_reason_invalid_order;
    timestamp = stamp_us;
  }

  abbrev pub kill_switch_rejection : ℕ → RiskEvaluationResult D
  kill_switch_rejection stamp_us = record default_result {
    decision = reject;
    rejection_reason = rejection_reason_kill_switch;
    kill_switch_triggered = true;
    timestamp = stamp_us;
  }

  abbrev pub acceptance : RiskEvaluationResult D → Readings → RiskEvaluationResult D
  acceptance limit_result r = record default_result {
    decision = accept;
    exposure = limit_result.exposure;
    limit = limit_result.limit;
    utilization_pct = limit_result.utilization_pct;
    evaluation_latency_ns = latency r;
    timestamp = r.stamp_us;
  }

module _ {D V : Type 0} where
  unfoldable pub record_latency : RiskEngine D V → ℕ → RiskEngine D V
  record_latency s latency_ns = record s {
    latency_window = set s.latency_window s.latency_index latency_ns;
    latency_index = (s.latency_index + 1) % latency_window_size;
  }

  unfoldable pub emit_risk_event : RiskEngine D V → RiskEvaluationResult D → RiskEngine D V
  emit_risk_event s result = elim s.event_handler [
    | none ↦ s
    | some handler ↦ record s { events = s.events ++ ((handler, result) ∷ []) }
  ]

  -- The four statements before each `return` of a rejection by a check.
  unfoldable pub finish_rejection :
      RiskEngine D V → RiskEvaluationResult D → Readings → RiskEngine D V × RiskEvaluationResult D
  unfolding record_latency emit_risk_event
  finish_rejection s result r =
      let timed : RiskEvaluationResult D = record result { evaluation_latency_ns = latency r } in
      let counted : RiskEngine D V = record s { rejected_orders = inc64 s.rejected_orders } in
      (emit_risk_event (record_latency counted (latency r)) timed, timed)

  module _ ⦃d : Double D⦄ where
    unfoldable pub reject_by_kill_switch :
        RiskEngine D V → Readings → RiskEngine D V × RiskEvaluationResult D
    unfolding record_latency emit_risk_event
    reject_by_kill_switch s r =
        let result = kill_switch_rejection r.stamp_us in
        let counted : RiskEngine D V = record s { rejected_orders = inc64 s.rejected_orders } in
        (emit_risk_event (record_latency counted 0) result, result)

    unfoldable pub finish_acceptance :
        RiskEngine D V → RiskEvaluationResult D → Readings → RiskEngine D V × RiskEvaluationResult D
    unfolding record_latency emit_risk_event
    finish_acceptance s limit_result r =
        let result = acceptance limit_result r in
        let counted : RiskEngine D V = record s { processed_orders = inc64 s.processed_orders } in
        let watched = check_kill_switch_anomaly counted r.anomaly_ms in
        (emit_risk_event (record_latency watched (latency r)) result, result)

    module _ (limits : RiskLimits D) (var : VarModel D V) where
      -- `evaluateOrder` from the result of the limits on.
      unfoldable pub after_limits :
          RiskEngine D V
          → RiskEvaluationResult D
          → Order
          → Readings
          → RiskEngine D V × RiskEvaluationResult D
      after_limits s limit_result o r =
          if is_reject limit_result.decision
          then finish_rejection s limit_result r
          else if is_reject (evaluate_var var s o).decision
          then finish_rejection s (evaluate_var var s o) r
          else finish_acceptance s limit_result r

      -- `evaluateOrder` from the result of the circuit breaker on.
      unfoldable pub after_breaker :
          RiskEngine D V
          → RiskEvaluationResult D
          → Order
          → Readings
          → RiskEngine D V × RiskEvaluationResult D
      after_breaker s cb_result o r =
          if is_reject cb_result.decision
          then finish_rejection s cb_result r
          else (let (s', limit_result) = evaluate_risk_limits limits s o r.breach_ms in
              after_limits s' limit_result o r)

      unfoldable pub evaluate_order :
          RiskEngine D V → Order → Readings → RiskEngine D V × RiskEvaluationResult D
      evaluate_order s o r =
          if not (is_valid o)
          then (record_latency s 0, invalid_rejection r.stamp_us)
          else if s.kill_switch_active
          then reject_by_kill_switch s r
          else (let (s', cb_result) = check_circuit_breaker s o.instrument_id r.breaker_ms in
              after_breaker s' cb_result o r)
