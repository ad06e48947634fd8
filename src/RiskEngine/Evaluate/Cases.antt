-- ===== src/RiskEngine/Evaluate/Cases.antt =====
-- `evaluateOrder` by its six exits: what holds of each holds of the call.
use challenge_8a2ffd.Common.{◌≡◌, inl, inr, true, false, Bool-cases}
use challenge_8a2ffd.Common.Double.{Double}
use challenge_8a2ffd.RiskEngine.Types.{RiskEvaluationResult, Order, is_valid, is_reject}
use challenge_8a2ffd.RiskEngine.State.{RiskLimits, VarModel, RiskEngine, Readings}
use challenge_8a2ffd.RiskEngine.Breaker.{check_circuit_breaker}
use challenge_8a2ffd.RiskEngine.Checks.{evaluate_risk_limits, evaluate_var}
use challenge_8a2ffd.RiskEngine.Evaluate.{
  evaluate_order, after_breaker, after_limits, finish_rejection, finish_acceptance,
  reject_by_kill_switch, record_latency, invalid_rejection,
}

module _ {D V : Type 0} ⦃d : Double D⦄ (limits : RiskLimits D) (var : VarModel D V)
    (P : RiskEngine D V × RiskEvaluationResult D → Type 0) where
  after_limits_cases :
      (s : RiskEngine D V) (lim : RiskEvaluationResult D) (o : Order) (r : Readings)
      → (is_reject lim.decision ≡ true → P (finish_rejection s lim r))
      → (is_reject (evaluate_var var s o).decision ≡ true
          → P (finish_rejection s (evaluate_var var s o) r))
      → (is_reject lim.decision ≡ false → P (finish_acceptance s lim r))
      → P (after_limits limits var s lim o r)
  unfolding after_limits
  after_limits_cases s lim o r over breach fine = elim (Bool-cases (is_reject lim.decision)) [
    | inl e ↦ simp e (over e)
    | inr e ↦ elim (Bool-cases (is_reject (evaluate_var var s o).decision)) [
      | inl f ↦ simp (e, f) (breach f)
      | inr f ↦ simp (e, f) (fine e)
    ]
  ]

  -- After the first two tests: the exits by the breaker, the limit, the value at risk, and none.
  pub evaluate_order_cases :
      (s : RiskEngine D V) (o : Order) (r : Readings)
      → let (s', cb) = check_circuit_breaker s o.instrument_id r.breaker_ms in
        let (s'', lim) = evaluate_risk_limits limits s' o r.breach_ms in
        let v = evaluate_var var s'' o in
        (is_valid o ≡ false → P (record_latency s 0, invalid_rejection r.stamp_us))
        → (is_valid o ≡ true → s.kill_switch_active ≡ true → P (reject_by_kill_switch s r))
        → (is_reject cb.decision ≡ true → P (finish_rejection s' cb r))
        → (is_reject lim.decision ≡ true → P (finish_rejection s'' lim r))
        → (is_reject v.decision ≡ true → P (finish_rejection s'' v r))
        → (s.kill_switch_active ≡ false → P (finish_acceptance s'' lim r))
        → P (evaluate_order limits var s o r)
  unfolding evaluate_order after_breaker
  evaluate_order_cases s o r invalid killed broken over breach fine =
      let (s', cb) = check_circuit_breaker s o.instrument_id r.breaker_ms in
      let (s'', lim) = evaluate_risk_limits limits s' o r.breach_ms in
      elim (Bool-cases (is_valid o)) [
        | inr e ↦ simp e (invalid e)
        | inl e ↦ elim (Bool-cases s.kill_switch_active) [
          | inl f ↦ simp (e, f) (killed e f)
          | inr f ↦ elim (Bool-cases (is_reject cb.decision)) [
            | inl g ↦ simp (e, f, g) (broken g)
            | inr g ↦ simp (e, f, g) (after_limits_cases s'' lim o r over breach (λ _. fine f))
          ]
        ]
      ]
