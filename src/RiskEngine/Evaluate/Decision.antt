-- ===== src/RiskEngine/Evaluate/Decision.antt =====
-- Which orders `evaluateOrder` accepts, and the reason that it gives for each rejection.
use challenge_8a2ffd.Common.{◌≡◌, inl, inr, true, false, arith, Bool-cases}
use challenge_8a2ffd.Common.Double.{Double}
use challenge_8a2ffd.RiskEngine.Types.{
  RiskEvaluationResult, accept, reject, Order, is_valid, is_reject, rejection_reason_limit_exceeded,
  rejection_reason_circuit_breaker, rejection_reason_var_breach, rejection_reason_kill_switch,
  rejection_reason_invalid_order,
}
use challenge_8a2ffd.RiskEngine.State.{RiskLimits, VarModel, RiskEngine, Readings}
use challenge_8a2ffd.RiskEngine.Breaker.{check_circuit_breaker}
use challenge_8a2ffd.RiskEngine.Checks.{evaluate_risk_limits, evaluate_var}
use challenge_8a2ffd.RiskEngine.Evaluate.{evaluate_order}
use challenge_8a2ffd.RiskEngine.Evaluate.Admission.{
  WithinLimit, BreakerAdmits, WithinVar, check_circuit_breaker_iff, evaluate_risk_limits_iff,
  evaluate_var_iff, check_circuit_breaker_reason, evaluate_risk_limits_reason, evaluate_var_reason,
  evaluate_order_stages,
}

-- What an accepted order has passed.
pub record IsAdmissible {D V : Type 0} ⦃d : Double D⦄ (limits : RiskLimits D) (var : VarModel D V)
    (s : RiskEngine D V) (o : Order) (r : Readings) : Type 0 where
  pub valid : is_valid o ≡ true
  pub running : s.kill_switch_active ≡ false
  pub breaker : BreakerAdmits s o r
  pub limit : WithinLimit limits o
  pub var_limit : WithinVar var s o

-- Why an order is accepted or rejected: the first check that fails gives the reason.
pub data Verdict {D V : Type 0} ⦃d : Double D⦄ (limits : RiskLimits D) (var : VarModel D V)
    (s : RiskEngine D V) (o : Order) (r : Readings) (result : RiskEvaluationResult D) : Type 0 where
  invalid :
      is_valid o ≡ false
      → result.decision ≡ reject
      → result.rejection_reason ≡ rejection_reason_invalid_order
      → Verdict limits var s o r result
  killed :
      is_valid o ≡ true
      → s.kill_switch_active ≡ true
      → result.decision ≡ reject
      → result.rejection_reason ≡ rejection_reason_kill_switch
      → Verdict limits var s o r result
  broken :
      is_valid o ≡ true
      → s.kill_switch_active ≡ false
      → ¬ BreakerAdmits s o r
      → result.decision ≡ reject
      → result.rejection_reason ≡ rejection_reason_circuit_breaker
      → Verdict limits var s o r result
  over_limit :
      is_valid o ≡ true
      → s.kill_switch_active ≡ false
      → BreakerAdmits s o r
      → ¬ WithinLimit limits o
      → result.decision ≡ reject
      → result.rejection_reason ≡ rejection_reason_limit_exceeded
      → Verdict limits var s o r result
  over_var :
      is_valid o ≡ true
      → s.kill_switch_active ≡ false
      → BreakerAdmits s o r
      → WithinLimit limits o
      → ¬ WithinVar var s o
      → result.decision ≡ reject
      → result.rejection_reason ≡ rejection_reason_var_breach
      → Verdict limits var s o r result
  accepted :
      IsAdmissible limits var s o r
      → result.decision ≡ accept
      → result.rejection_reason ≡ ""
      → Verdict limits var s o r result

module _ {D V : Type 0} ⦃d : Double D⦄ where
  module _ (limits : RiskLimits D) (var : VarModel D V) where
    -- `evaluateOrder` decides by its five checks in their order: an order that fails one is rejected
    -- for the reason of the first that it fails, and one that passes all is accepted. It never asks
    -- for a review or a reduction.
    pub evaluate_order-Verdict :
        (s : RiskEngine D V) (o : Order) (r : Readings)
        → Verdict limits var s o r (evaluate_order limits var s o r).1
    evaluate_order-Verdict s o r =
        let (s', cb) = check_circuit_breaker s o.instrument_id r.breaker_ms in
        let (s'', lim) = evaluate_risk_limits limits s' o r.breach_ms in
        let breaker = check_circuit_breaker_iff s o r in
        let limit = evaluate_risk_limits_iff limits s' o r.breach_ms in
        let stages = evaluate_order_stages limits var s o r in
        let reason = check_circuit_breaker_reason s o.instrument_id r.breaker_ms in
        let reason' = evaluate_risk_limits_reason limits s' o r.breach_ms in
        let reason'' = evaluate_var_reason var s o in
        let v = evaluate_var_iff var s o in
        elim (Bool-cases (is_valid o)) [
          | inr e ↦ invalid e (ground arith) (ground arith)
          | inl e ↦ elim (Bool-cases s.kill_switch_active) [
            | inl f ↦ killed e f (ground arith) (ground arith)
            | inr f ↦ elim (Bool-cases (is_reject cb.decision)) [
              | inl g ↦ broken e f (λ b. ground (arith, breaker.1 b)) (ground arith) (ground arith)
              | inr g ↦ elim (Bool-cases (is_reject lim.decision)) [
                | inl h ↦
                    over_limit e f (breaker.0 g) (λ b. ground (arith, limit.1 b)) (ground arith)
                      (ground arith)
                | inr h ↦ elim (Bool-cases (is_reject (evaluate_var var s o).decision)) [
                  | inl k ↦
                      over_var e f (breaker.0 g) (limit.0 h) (λ b. ground (arith, v.1 b))
                        (ground arith) (ground arith)
                  | inr k ↦
                      accepted
                        (record {
                          valid = e;
                          running = f;
                          breaker = breaker.0 g;
                          limit = limit.0 h;
                          var_limit = v.0 k;
                        })
                        (ground arith) (ground arith)
                ]
              ]
            ]
          ]
        ]
