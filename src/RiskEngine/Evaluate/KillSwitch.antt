-- ===== src/RiskEngine/Evaluate/KillSwitch.antt =====
-- When `evaluateOrder` throws the kill switch, and what holds while it is thrown.
use challenge_8a2ffd.Common.{
  ℕ, ◌<◌, ◌^◌, ◌≡◌, refl, ◌∙◌, ap, Bool, true, false, ◌&&◌, ltb, if◌then◌else◌, arith, sub64,
}
use challenge_8a2ffd.Common.Double.{Double, IsExact}
use challenge_8a2ffd.RiskEngine.Types.{RiskEvaluationResult, Order, is_reject}
use challenge_8a2ffd.RiskEngine.State.{
  RiskLimits, VarModel, RiskEngine, Readings, anomaly_window_ms,
}
use challenge_8a2ffd.RiskEngine.Breaker.{check_circuit_breaker, update_circuit_breaker_state}
use challenge_8a2ffd.RiskEngine.Checks.{
  evaluate_risk_limits, evaluate_var, check_kill_switch_anomaly, too_many_anomalies,
}
use challenge_8a2ffd.RiskEngine.Evaluate.Cases.{evaluate_order_cases}
use challenge_8a2ffd.RiskEngine.Evaluate.{
  evaluate_order, finish_rejection, finish_acceptance, reject_by_kill_switch, record_latency,
}

module _ {D V : Type 0} where
  -- What the kill switch reads and writes, before and after.
  pub record SameSwitch (s t : RiskEngine D V) : Type 0 where
    pub active : t.kill_switch_active ≡ s.kill_switch_active
    pub triggers : t.kill_switch_trigger_count ≡ s.kill_switch_trigger_count
    pub window : t.anomaly_window_start ≡ s.anomaly_window_start
    pub count : t.anomaly_count ≡ s.anomaly_count

  SameSwitch-trans : (s t u : RiskEngine D V) → SameSwitch s t → SameSwitch t u → SameSwitch s u
  SameSwitch-trans s t u h k = ground arith

module _ {D V : Type 0} ⦃d : Double D⦄ where
  check_circuit_breaker-SameSwitch :
      (s : RiskEngine D V) (i ms : ℕ) → SameSwitch s (check_circuit_breaker s i ms).0
  unfolding check_circuit_breaker
  check_circuit_breaker-SameSwitch s i ms = ground arith

  evaluate_risk_limits-SameSwitch :
      (limits : RiskLimits D) (s : RiskEngine D V) (o : Order) (ms : ℕ)
      → SameSwitch s (evaluate_risk_limits limits s o ms).0
  unfolding evaluate_risk_limits update_circuit_breaker_state
  evaluate_risk_limits-SameSwitch limits s o ms = ground arith

  finish_rejection-SameSwitch :
      (s : RiskEngine D V) (result : RiskEvaluationResult D) (r : Readings)
      → SameSwitch s (finish_rejection s result r).0
  unfolding finish_rejection
  finish_rejection-SameSwitch s result r = ground arith

  reject_by_kill_switch-SameSwitch :
      (s : RiskEngine D V) (r : Readings) → SameSwitch s (reject_by_kill_switch s r).0
  unfolding reject_by_kill_switch
  reject_by_kill_switch-SameSwitch s r = ground arith

  -- A window of more than a minute ended with too many anomalies.
  abbrev pub is_anomalous : RiskEngine D V → ℕ → Bool
  is_anomalous s now_ms =
      ltb anomaly_window_ms (sub64 now_ms s.anomaly_window_start) && too_many_anomalies s

  -- The switch after a call that came back as `out`.
  abbrev pub Switches : RiskEngine D V → Readings → RiskEngine D V × RiskEvaluationResult D → Type 0
  Switches s r out =
      out.0.kill_switch_active
      ≡ (if is_reject out.1.decision then s.kill_switch_active else is_anomalous s r.anomaly_ms)

  is_anomalous_congr :
      (s t : RiskEngine D V) (ms : ℕ)
      → t.anomaly_window_start ≡ s.anomaly_window_start
      → t.anomaly_count ≡ s.anomaly_count
      → is_anomalous t ms ≡ is_anomalous s ms
  unfolding too_many_anomalies
  is_anomalous_congr s t ms e f = ground arith

  finish_acceptance_active :
      (s : RiskEngine D V) (lim : RiskEvaluationResult D) (r : Readings)
      → s.kill_switch_active ≡ false
      → (finish_acceptance s lim r).0.kill_switch_active ≡ is_anomalous s r.anomaly_ms
  unfolding finish_acceptance check_kill_switch_anomaly too_many_anomalies
  finish_acceptance_active s lim r e = ground arith

  finish_rejection-Switches :
      (s t : RiskEngine D V) (result : RiskEvaluationResult D) (r : Readings)
      → SameSwitch s t
      → is_reject result.decision ≡ true
      → Switches s r (finish_rejection t result r)
  unfolding finish_rejection
  finish_rejection-Switches s t result r same e = ground arith

  finish_acceptance-Switches :
      (s t : RiskEngine D V) (result : RiskEvaluationResult D) (r : Readings)
      → SameSwitch s t
      → s.kill_switch_active ≡ false
      → Switches s r (finish_acceptance t result r)
  unfolding finish_acceptance check_kill_switch_anomaly
  finish_acceptance-Switches s t result r same e =
      finish_acceptance_active t result r (same.active ∙ e)
      ∙ is_anomalous_congr s t r.anomaly_ms same.window same.count

  reject_by_kill_switch-Switches :
      (s : RiskEngine D V) (r : Readings) → Switches s r (reject_by_kill_switch s r)
  unfolding reject_by_kill_switch
  reject_by_kill_switch-Switches s r = (reject_by_kill_switch-SameSwitch s r).active

  -- A rejected order leaves the kill switch as it is. An accepted one throws it exactly if more than
  -- 60 seconds have passed since the window began and the window saw too many anomalies.
  pub evaluate_order-Switches :
      (limits : RiskLimits D) (var : VarModel D V) (s : RiskEngine D V) (o : Order) (r : Readings)
      → Switches s r (evaluate_order limits var s o r)
  unfolding record_latency
  evaluate_order-Switches limits var s o r =
      let (s', cb) = check_circuit_breaker s o.instrument_id r.breaker_ms in
      let (s'', lim) = evaluate_risk_limits limits s' o r.breach_ms in
      let first = check_circuit_breaker-SameSwitch s o.instrument_id r.breaker_ms in
      let both =
        SameSwitch-trans s s' s'' first (evaluate_risk_limits-SameSwitch limits s' o r.breach_ms) in
      evaluate_order_cases limits var (Switches s r) s o r (λ _. refl)
        (λ _ _. reject_by_kill_switch-Switches s r) (finish_rejection-Switches s s' cb r first)
        (finish_rejection-Switches s s'' lim r both)
        (finish_rejection-Switches s s'' (evaluate_var var s'' o) r both)
        (finish_acceptance-Switches s s'' lim r both)

  -- In exact arithmetic the threshold of the anomalies is 30.
  pub too_many_anomalies_exact :
      IsExact D
      → (s : RiskEngine D V) → s.anomaly_count < 2 ^ 53
      → too_many_anomalies s ≡ ltb 30 s.anomaly_count
  unfolding too_many_anomalies
  too_many_anomalies_exact exact s h =
      let product : d.mul (d.lit 3 1) (d.of_ℕ 10) ≡ d.of_ℕ 30 =
        ap (λ t. d.mul t (d.of_ℕ 10)) (exact.lit-one 3 (omega arith))
        ∙ exact.mul-of_ℕ 3 10 (omega arith) in
      ap (λ t. d.lt t (d.of_ℕ s.anomaly_count)) product
      ∙ exact.lt-of_ℕ 30 s.anomaly_count (omega arith) h
