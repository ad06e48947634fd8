-- ===== src/RiskEngine/Evaluate/Breakers.antt =====
-- What `evaluateOrder` does to the circuit breakers, and how long an open one stays so.
use challenge_8a2ffd.Common.{
  ℕ, ◌<◌, ◌≡◌, ◌∙◌, ap, inl, inr, Bool, true, false, not, ◌&&◌, ◌||◌, none, some, ltb, leb, ◌==◌,
  if◌then◌else◌, arith, Bool-cases,
}
use challenge_8a2ffd.Common.Double.{Double}
use challenge_8a2ffd.RiskEngine.Types.{
  RiskEvaluationResult, Order, is_valid, is_reject, CircuitBreakerState, opened, closed, half_open,
}
use challenge_8a2ffd.RiskEngine.State.{
  RiskLimits, VarModel, RiskEngine, Readings, CircuitBreakerData, max_instruments,
}
use challenge_8a2ffd.RiskEngine.Breaker.{
  check_circuit_breaker, update_circuit_breaker_state, breached_breaker,
}
use challenge_8a2ffd.RiskEngine.Breaker.Transitions.{
  probed_breaker, probed_breaker-Moves, breached_breaker-Move, Moves, here, next,
}
use challenge_8a2ffd.RiskEngine.Checks.{
  new_exposure, evaluate_risk_limits, evaluate_var, check_kill_switch_anomaly,
}
use challenge_8a2ffd.RiskEngine.Evaluate.{
  evaluate_order, after_breaker, after_limits, finish_rejection, finish_acceptance,
  reject_by_kill_switch, record_latency,
}

abbrev is_opened : CircuitBreakerState → Bool
is_opened opened = true
is_opened closed = false
is_opened half_open = false

module _ {D : Type 0} ⦃d : Double D⦄ where
  -- A limit is set and the exposure with the order exceeds it.
  abbrev pub exceeds_limit : RiskLimits D → Order → Bool
  exceeds_limit limits o = elim (limits.get_limit o.trader_id o.strategy_id o.instrument_id) [
    | none ↦ false
    | some limit ↦ d.lt limit (new_exposure limits o)
  ]

  -- The breaker of the order's own instrument after the order.
  abbrev pub own_breaker : RiskLimits D → CircuitBreakerData → Order → Readings → CircuitBreakerData
  own_breaker limits cb o r =
      let probed = probed_breaker cb r.breaker_ms in
      if is_opened probed.state
      then probed
      else if exceeds_limit limits o
      then breached_breaker probed r.breach_ms
      else probed

module _ {D : Type 0} ⦃d : Double D⦄ where
  own_breaker-Moves :
      (limits : RiskLimits D) (cb : CircuitBreakerData) (o : Order) (r : Readings)
      → Moves cb (own_breaker limits cb o r)
  own_breaker-Moves limits cb o r =
      let probed = probed_breaker cb r.breaker_ms in
      let tried : Moves cb probed = probed_breaker-Moves cb r.breaker_ms in
      elim (Bool-cases (is_opened probed.state)) [
        | inl e ↦ rw e tried
        | inr e ↦ elim (Bool-cases (exceeds_limit limits o)) [
          | inl f ↦ rw (e, f) (next tried (breached_breaker-Move probed r.breach_ms))
          | inr f ↦ rw (e, f) tried
        ]
      ]

module _ {D V : Type 0} ⦃d : Double D⦄ where
  finish_rejection_breakers :
      (s : RiskEngine D V) (result : RiskEvaluationResult D) (r : Readings)
      → (finish_rejection s result r).0.circuit_breakers ≡ s.circuit_breakers
  unfolding finish_rejection
  finish_rejection_breakers s result r = ground arith

  finish_acceptance_breakers :
      (s : RiskEngine D V) (result : RiskEvaluationResult D) (r : Readings)
      → (finish_acceptance s result r).0.circuit_breakers ≡ s.circuit_breakers
  unfolding finish_acceptance check_kill_switch_anomaly
  finish_acceptance_breakers s result r = ground arith

  reject_by_kill_switch_breakers :
      (s : RiskEngine D V) (r : Readings)
      → (reject_by_kill_switch s r).0.circuit_breakers ≡ s.circuit_breakers
  unfolding reject_by_kill_switch
  reject_by_kill_switch_breakers s r = ground arith

  evaluate_risk_limits_breakers :
      (limits : RiskLimits D) (s : RiskEngine D V) (o : Order) (ms j : ℕ)
      → o.instrument_id < max_instruments
      → (evaluate_risk_limits limits s o ms).0.circuit_breakers j ≡ (
          if exceeds_limit limits o && j == o.instrument_id
          then breached_breaker (s.circuit_breakers o.instrument_id) ms
          else s.circuit_breakers j)
  unfolding evaluate_risk_limits update_circuit_breaker_state
  evaluate_risk_limits_breakers limits s o ms j h = ground arith

  evaluate_risk_limits_exceeds :
      (limits : RiskLimits D) (s : RiskEngine D V) (o : Order) (ms : ℕ)
      → is_reject (evaluate_risk_limits limits s o ms).1.decision ≡ exceeds_limit limits o
  unfolding evaluate_risk_limits
  evaluate_risk_limits_exceeds limits s o ms = ground arith

  check_circuit_breaker_breakers :
      (s : RiskEngine D V) (i ms j : ℕ)
      → (check_circuit_breaker s i ms).0.circuit_breakers j ≡ (
          if ltb i max_instruments && j == i
          then probed_breaker (s.circuit_breakers i) ms
          else s.circuit_breakers j)
  unfolding check_circuit_breaker
  check_circuit_breaker_breakers s i ms j = ground arith

  check_circuit_breaker_opened :
      (s : RiskEngine D V) (i ms : ℕ)
      → is_reject (check_circuit_breaker s i ms).1.decision
        ≡ (leb max_instruments i || is_opened (probed_breaker (s.circuit_breakers i) ms).state)
  unfolding check_circuit_breaker
  check_circuit_breaker_opened s i ms = ground arith

  module _ (limits : RiskLimits D) (var : VarModel D V) where
    after_limits_breakers :
        (s : RiskEngine D V) (result : RiskEvaluationResult D) (o : Order) (r : Readings)
        → (after_limits limits var s result o r).0.circuit_breakers ≡ s.circuit_breakers
    unfolding after_limits
    after_limits_breakers s result o r = ground (
      arith,
      finish_rejection_breakers s result r,
      finish_rejection_breakers s (evaluate_var var s o) r,
      finish_acceptance_breakers s result r,
    )

    after_breaker_breakers :
        (s : RiskEngine D V) (cb : RiskEvaluationResult D) (o : Order) (r : Readings) (j : ℕ)
        → (is_reject cb.decision ≡ false → o.instrument_id < max_instruments)
        → (after_breaker limits var s cb o r).0.circuit_breakers j ≡ (
            if not (is_reject cb.decision) && (exceeds_limit limits o && j == o.instrument_id)
            then breached_breaker (s.circuit_breakers o.instrument_id) r.breach_ms
            else s.circuit_breakers j)
    unfolding after_breaker
    after_breaker_breakers s cb o r j h = elim (Bool-cases (is_reject cb.decision)) [
      | inl e ↦ rw e (ap (λ f. f j) (finish_rejection_breakers s cb r))
      | inr e ↦
          let (s', result) = evaluate_risk_limits limits s o r.breach_ms in
          rw e (
            ap (λ f. f j) (after_limits_breakers s' result o r)
            ∙ evaluate_risk_limits_breakers limits s o r.breach_ms j (h e))
    ]

    -- An order changes the breaker of its own instrument alone, and that one only if the order is
    -- valid, the kill switch is off and the instrument exists. It then becomes half open if its
    -- timeout is over, and, unless it is open, takes a breach if the order exceeds its limit.
    pub evaluate_order_breakers :
        (s : RiskEngine D V) (o : Order) (r : Readings) (j : ℕ)
        → (evaluate_order limits var s o r).0.circuit_breakers j ≡ (
            if is_valid o
              && (not s.kill_switch_active
                  && (ltb o.instrument_id max_instruments && j == o.instrument_id))
            then own_breaker limits (s.circuit_breakers o.instrument_id) o r
            else s.circuit_breakers j)
    unfolding evaluate_order record_latency
    evaluate_order_breakers s o r j =
        let i = o.instrument_id in
        let (s', cb) = check_circuit_breaker s i r.breaker_ms in
        let opens = check_circuit_breaker_opened s i r.breaker_ms in
        let in_range : is_reject cb.decision ≡ false → i < max_instruments = λ h. ground arith in
        elim (Bool-cases s.kill_switch_active) [
          | inl f ↦ ground (arith, ap (λ f. f j) (reject_by_kill_switch_breakers s r))
          | inr f ↦ ground (
            arith,
            opens,
            after_breaker_breakers s' cb o r j in_range,
            check_circuit_breaker_breakers s i r.breaker_ms j,
            check_circuit_breaker_breakers s i r.breaker_ms i,
          )
        ]

    pub evaluate_order-Moves :
        (s : RiskEngine D V) (o : Order) (r : Readings) (j : ℕ)
        → Moves (s.circuit_breakers j) ((evaluate_order limits var s o r).0.circuit_breakers j)
    evaluate_order-Moves s o r j =
        elim (Bool-cases (
          is_valid o
          && (not s.kill_switch_active
              && (ltb o.instrument_id max_instruments && j == o.instrument_id)))) [
                | inl e ↦
                    let same : j ≡ o.instrument_id = ground arith in
                    rw (evaluate_order_breakers s o r j, e, same)
                      (own_breaker-Moves limits (s.circuit_breakers o.instrument_id) o r)
                | inr e ↦ rw (evaluate_order_breakers s o r j, e) here
              ]
