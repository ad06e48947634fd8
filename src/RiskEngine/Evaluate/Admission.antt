-- ===== src/RiskEngine/Evaluate/Admission.antt =====
-- The checks of `evaluateOrder` one by one: when each lets an order through, the reason that it
-- gives, and how the five decide together.
use challenge_8a2ffd.Common.{
  ℕ, ◌<◌, ◌≡◌, refl, ◌∙◌, ◌≢◌, ◌⊎◌, ◌↔◌, inl, inr, true, false, not, some, if◌then◌else◌, arith,
  sub64, Option-cases,
}
use challenge_8a2ffd.Common.Double.{Double}
use challenge_8a2ffd.MarketData.Cache.{get_order_book, MarketDataCache}
use challenge_8a2ffd.MarketData.Book.{OrderBook}
use challenge_8a2ffd.RiskEngine.Types.{
  RiskEvaluationResult, accept, reject, Order, is_valid, is_reject, opened,
  rejection_reason_limit_exceeded, rejection_reason_circuit_breaker, rejection_reason_var_breach,
  rejection_reason_kill_switch, rejection_reason_invalid_order,
}
use challenge_8a2ffd.RiskEngine.State.{
  RiskLimits, VarModel, RiskEngine, Readings, max_instruments, circuit_breaker_reset_timeout_ms,
}
use challenge_8a2ffd.RiskEngine.Breaker.{check_circuit_breaker, update_circuit_breaker_state}
use challenge_8a2ffd.RiskEngine.Checks.{
  new_exposure, breaches_var, evaluate_risk_limits, evaluate_var,
}
use challenge_8a2ffd.RiskEngine.Evaluate.{
  evaluate_order, after_breaker, after_limits, finish_rejection, finish_acceptance,
  reject_by_kill_switch,
}

module _ {D : Type 0} ⦃d : Double D⦄ where
  -- No limit is set, or the exposure with the order does not exceed it.
  abbrev pub WithinLimit : RiskLimits D → Order → Type 0
  WithinLimit limits o =
      (limit : D)
      → limits.get_limit o.trader_id o.strategy_id o.instrument_id ≡ some limit
      → d.lt limit (new_exposure limits o) ≡ false

module _ {D V : Type 0} where
  -- The breaker of the instrument lets the order through: it exists, and it is not open or its last
  -- reset lies back by more than the timeout.
  abbrev pub BreakerAdmits : RiskEngine D V → Order → Readings → Type 0
  BreakerAdmits s o r =
      let cb = s.circuit_breakers o.instrument_id in
      (o.instrument_id < max_instruments)
      × ((cb.state ≢ opened)
          ⊎ (circuit_breaker_reset_timeout_ms < sub64 r.breaker_ms cb.last_reset_timestamp))

  module _ ⦃d : Double D⦄ where
    -- Where the model and a book that is not stale are there, the value at risk with the order does
    -- not exceed its limit.
    abbrev pub WithinVar : VarModel D V → RiskEngine D V → Order → Type 0
    WithinVar var s o =
        (v : V) (cache : MarketDataCache) (book : OrderBook)
        → s.var_model ≡ some v
        → s.market_data_cache ≡ some cache
        → get_order_book cache o.instrument_id ≡ some book
        → book.stale ≡ false
        → breaches_var var v o ≡ false

module _ {D V : Type 0} ⦃d : Double D⦄ where
  pub check_circuit_breaker_iff :
      (s : RiskEngine D V) (o : Order) (r : Readings)
      → (is_reject (check_circuit_breaker s o.instrument_id r.breaker_ms).1.decision ≡ false)
        ↔ BreakerAdmits s o r
  unfolding check_circuit_breaker
  check_circuit_breaker_iff s o r = ground arith

  pub evaluate_risk_limits_iff :
      (limits : RiskLimits D) (s : RiskEngine D V) (o : Order) (ms : ℕ)
      → (is_reject (evaluate_risk_limits limits s o ms).1.decision ≡ false) ↔ WithinLimit limits o
  unfolding evaluate_risk_limits
  evaluate_risk_limits_iff limits s o ms =
      elim (Option-cases (limits.get_limit o.trader_id o.strategy_id o.instrument_id)) [
        | inl e ↦ (λ h limit e'. cc, λ h. ground arith)
        | inr (l, e) ↦ (λ h limit e'. ground arith, λ h. ground (arith, h l e))
      ]

  pub evaluate_var_iff :
      (var : VarModel D V) (s : RiskEngine D V) (o : Order)
      → (is_reject (evaluate_var var s o).decision ≡ false) ↔ WithinVar var s o
  unfolding evaluate_var
  evaluate_var_iff var s o = (
    λ h v cache book p q r f. ground arith,
    λ h. elim (Option-cases s.var_model) [
      | inl e ↦ ground arith
      | inr (v, e) ↦ elim (Option-cases s.market_data_cache) [
        | inl e' ↦ ground arith
        | inr (cache, e') ↦ elim (Option-cases (get_order_book cache o.instrument_id)) [
          | inl e'' ↦ ground arith
          | inr (book, e'') ↦ ground (arith, h v cache book e e' e'')
        ]
      ]
    ],
  )

  finish_rejection_decision :
      (s : RiskEngine D V) (result : RiskEvaluationResult D) (r : Readings)
      → let result' = (finish_rejection s result r).1 in
        (result'.decision ≡ result.decision) × (result'.rejection_reason ≡ result.rejection_reason)
  unfolding finish_rejection
  finish_rejection_decision s result r = (refl, refl)

  finish_acceptance_decision :
      (s : RiskEngine D V) (result : RiskEvaluationResult D) (r : Readings)
      → ((finish_acceptance s result r).1.decision ≡ accept)
        × ((finish_acceptance s result r).1.rejection_reason ≡ "")
  unfolding finish_acceptance
  finish_acceptance_decision s result r = (refl, refl)

  kill_switch_decision :
      (s : RiskEngine D V) (r : Readings)
      → ((reject_by_kill_switch s r).1.decision ≡ reject)
        × ((reject_by_kill_switch s r).1.rejection_reason ≡ rejection_reason_kill_switch)
  unfolding reject_by_kill_switch
  kill_switch_decision s r = (refl, refl)

  -- A check changes neither the model nor the cache.
  evaluate_risk_limits_frame :
      (limits : RiskLimits D) (s : RiskEngine D V) (o : Order) (ms : ℕ)
      → let s' = (evaluate_risk_limits limits s o ms).0 in
        (s'.var_model ≡ s.var_model) × (s'.market_data_cache ≡ s.market_data_cache)
  unfolding evaluate_risk_limits update_circuit_breaker_state
  evaluate_risk_limits_frame limits s o ms = ground arith

  check_circuit_breaker_frame :
      (s : RiskEngine D V) (i ms : ℕ)
      → let s' = (check_circuit_breaker s i ms).0 in
        (s'.var_model ≡ s.var_model) × (s'.market_data_cache ≡ s.market_data_cache)
  unfolding check_circuit_breaker
  check_circuit_breaker_frame s i ms = ground arith

  evaluate_var_congr :
      (var : VarModel D V) (s s' : RiskEngine D V) (o : Order)
      → s'.var_model ≡ s.var_model
      → s'.market_data_cache ≡ s.market_data_cache
      → evaluate_var var s' o ≡ evaluate_var var s o
  unfolding evaluate_var
  evaluate_var_congr var s s' o p q = ground arith

  pub check_circuit_breaker_reason :
      (s : RiskEngine D V) (i ms : ℕ)
      → let result = (check_circuit_breaker s i ms).1 in
        is_reject result.decision ≡ true
        → result.rejection_reason ≡ rejection_reason_circuit_breaker
  unfolding check_circuit_breaker
  check_circuit_breaker_reason s i ms h = ground arith

  pub evaluate_risk_limits_reason :
      (limits : RiskLimits D) (s : RiskEngine D V) (o : Order) (ms : ℕ)
      → let result = (evaluate_risk_limits limits s o ms).1 in
        is_reject result.decision ≡ true → result.rejection_reason ≡ rejection_reason_limit_exceeded
  unfolding evaluate_risk_limits
  evaluate_risk_limits_reason limits s o ms h = ground arith

  pub evaluate_var_reason :
      (var : VarModel D V) (s : RiskEngine D V) (o : Order)
      → let result = evaluate_var var s o in
        is_reject result.decision ≡ true → result.rejection_reason ≡ rejection_reason_var_breach
  unfolding evaluate_var
  evaluate_var_reason var s o h = ground arith

  module _ (limits : RiskLimits D) (var : VarModel D V) where
    -- `evaluateOrder` by its checks: the first one that fails rejects the order.
    pub evaluate_order_stages :
        (s : RiskEngine D V) (o : Order) (r : Readings)
        → let (s', cb) = check_circuit_breaker s o.instrument_id r.breaker_ms in
          let (s'', lim) = evaluate_risk_limits limits s' o r.breach_ms in
          let v = evaluate_var var s o in
          let result = (evaluate_order limits var s o r).1 in
          (result.rejection_reason ≡ (
            if not (is_valid o)
            then rejection_reason_invalid_order
            else if s.kill_switch_active
            then rejection_reason_kill_switch
            else if is_reject cb.decision
            then cb.rejection_reason
            else if is_reject lim.decision
            then lim.rejection_reason
            else if is_reject v.decision
            then v.rejection_reason
            else ""))
          × (result.decision ≡ (
              if not (is_valid o)
              then reject
              else if s.kill_switch_active
              then reject
              else if is_reject cb.decision
              then reject
              else if is_reject lim.decision
              then reject
              else if is_reject v.decision
              then reject
              else accept))
    unfolding evaluate_order after_breaker after_limits
    evaluate_order_stages s o r =
        let (s', cb) = check_circuit_breaker s o.instrument_id r.breaker_ms in
        let (s'', lim) = evaluate_risk_limits limits s' o r.breach_ms in
        let fr = check_circuit_breaker_frame s o.instrument_id r.breaker_ms in
        let fr' = evaluate_risk_limits_frame limits s' o r.breach_ms in
        let same : evaluate_var var s'' o ≡ evaluate_var var s o =
          evaluate_var_congr var s s'' o (fr'.0 ∙ fr.0) (fr'.1 ∙ fr.1) in
        rw same (
          ground (
            arith,
            finish_rejection_decision s' cb r,
            finish_rejection_decision s'' lim r,
            finish_rejection_decision s'' (evaluate_var var s o) r,
            finish_acceptance_decision s'' lim r,
            kill_switch_decision s r,
          ))
