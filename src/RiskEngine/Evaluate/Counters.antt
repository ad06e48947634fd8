-- ===== src/RiskEngine/Evaluate/Counters.antt =====
-- The counters of processed and rejected orders and the events that reach the handler.
use challenge_8a2ffd.Common.{
  ℕ, ◌+◌, ◌%◌, ◌^◌, ◌<◌, ◌≡◌, true, Option, none, some, List, [], ◌∷◌, ◌++◌, if◌then◌else◌, arith,
  inc64,
}
use challenge_8a2ffd.Common.Double.{Double}
use challenge_8a2ffd.RiskEngine.Types.{RiskEvaluationResult, Order, is_valid, is_reject}
use challenge_8a2ffd.RiskEngine.State.{RiskLimits, VarModel, RiskEngine, Readings}
use challenge_8a2ffd.RiskEngine.Breaker.{check_circuit_breaker, update_circuit_breaker_state}
use challenge_8a2ffd.RiskEngine.Checks.{
  evaluate_risk_limits, evaluate_var, check_kill_switch_anomaly,
}
use challenge_8a2ffd.RiskEngine.Evaluate.Cases.{evaluate_order_cases}
use challenge_8a2ffd.RiskEngine.Evaluate.{
  evaluate_order, finish_rejection, finish_acceptance, reject_by_kill_switch,
}

-- The events after one call of the handler, if there is one.
abbrev pub emitted :
    {D : Type 0}
    → Option ℕ
    → List (ℕ × RiskEvaluationResult D)
    → RiskEvaluationResult D
    → List (ℕ × RiskEvaluationResult D)
emitted none events result = events
emitted (some handler) events result = events ++ ((handler, result) ∷ [])

module _ {D : Type 0} where
  -- 1 for an accepted order, and for a rejected one.
  abbrev pub accepts : RiskEvaluationResult D → ℕ
  accepts result = if is_reject result.decision then 0 else 1

  abbrev pub rejects : RiskEvaluationResult D → ℕ
  rejects result = if is_reject result.decision then 1 else 0

module _ {D V : Type 0} where
  -- What a check leaves alone.
  pub record IsUncounted (s s' : RiskEngine D V) : Type 0 where
    pub processed : s'.processed_orders ≡ s.processed_orders
    pub rejected : s'.rejected_orders ≡ s.rejected_orders
    pub events : s'.events ≡ s.events
    pub handler : s'.event_handler ≡ s.event_handler
    pub active : s'.kill_switch_active ≡ s.kill_switch_active

  -- The bookkeeping of one order that came back as `result`.
  pub record IsCounted (s s' : RiskEngine D V) (result : RiskEvaluationResult D)
      (accepts rejects : ℕ) : Type 0 where
    pub processed : s'.processed_orders ≡ (s.processed_orders + accepts) % 2 ^ 64
    pub rejected : s'.rejected_orders ≡ (s.rejected_orders + rejects) % 2 ^ 64
    pub events : s'.events ≡ emitted s.event_handler s.events result
    pub handler : s'.event_handler ≡ s.event_handler

module _ {D V : Type 0} where
  -- The counters fit their words.
  abbrev pub IsWord : RiskEngine D V → Type 0
  IsWord s = (s.processed_orders < 2 ^ 64) × (s.rejected_orders < 2 ^ 64)

  -- The bookkeeping of one order by what came back.
  abbrev pub Counts : RiskEngine D V → RiskEngine D V × RiskEvaluationResult D → Type 0
  Counts s out = IsCounted s out.0 out.1 (accepts out.1) (rejects out.1)

module _ {D V : Type 0} ⦃d : Double D⦄ where
  check_circuit_breaker-IsUncounted :
      (s : RiskEngine D V) (i ms : ℕ) → IsUncounted s (check_circuit_breaker s i ms).0
  unfolding check_circuit_breaker
  check_circuit_breaker-IsUncounted s i ms = ground arith

  evaluate_risk_limits-IsUncounted :
      (limits : RiskLimits D) (s : RiskEngine D V) (o : Order) (ms : ℕ)
      → IsUncounted s (evaluate_risk_limits limits s o ms).0
  unfolding evaluate_risk_limits update_circuit_breaker_state
  evaluate_risk_limits-IsUncounted limits s o ms = ground arith

  check_kill_switch_anomaly_frame :
      (s : RiskEngine D V) (ms : ℕ)
      → let s' = check_kill_switch_anomaly s ms in
        (s'.processed_orders ≡ s.processed_orders)
        × (s'.rejected_orders ≡ s.rejected_orders)
        × (s'.events ≡ s.events)
        × (s'.event_handler ≡ s.event_handler)
  unfolding check_kill_switch_anomaly
  check_kill_switch_anomaly_frame s ms = ground arith

  finish_rejection-Counts :
      (s : RiskEngine D V) (result : RiskEvaluationResult D) (r : Readings)
      → IsWord s
      → is_reject result.decision ≡ true
      → Counts s (finish_rejection s result r)
  unfolding finish_rejection
  finish_rejection-Counts s result r h e = ground arith

  reject_by_kill_switch-Counts :
      (s : RiskEngine D V) (r : Readings) → IsWord s → Counts s (reject_by_kill_switch s r)
  unfolding reject_by_kill_switch
  reject_by_kill_switch-Counts s r h = ground arith

  finish_acceptance-Counts :
      (s : RiskEngine D V) (result : RiskEvaluationResult D) (r : Readings)
      → IsWord s
      → Counts s (finish_acceptance s result r)
  unfolding finish_acceptance
  finish_acceptance-Counts s result r h =
      let counted : RiskEngine D V = record s { processed_orders = inc64 s.processed_orders } in
      ground (arith, check_kill_switch_anomaly_frame counted r.anomaly_ms)

  Counts-of_IsUncounted :
      (s t : RiskEngine D V) (out : RiskEngine D V × RiskEvaluationResult D)
      → IsUncounted s t
      → Counts t out
      → Counts s out
  Counts-of_IsUncounted s t out h k = ground arith

  IsUncounted-trans : (s t u : RiskEngine D V) → IsUncounted s t → IsUncounted t u → IsUncounted s u
  IsUncounted-trans s t u h k = ground arith

  IsWord-of_IsUncounted : (s t : RiskEngine D V) → IsUncounted s t → IsWord s → IsWord t
  IsWord-of_IsUncounted s t h w = ground arith

  -- Every valid order is counted once, as processed if it is accepted and as rejected if not, modulo
  -- 2 ^ 64, and the handler, where one is set, is called once, with the very result that is returned.
  pub evaluate_order-Counts :
      (limits : RiskLimits D) (var : VarModel D V) (s : RiskEngine D V) (o : Order) (r : Readings)
      → is_valid o ≡ true
      → IsWord s
      → Counts s (evaluate_order limits var s o r)
  evaluate_order-Counts limits var s o r v h =
      let (s', cb) = check_circuit_breaker s o.instrument_id r.breaker_ms in
      let (s'', lim) = evaluate_risk_limits limits s' o r.breach_ms in
      let first = check_circuit_breaker-IsUncounted s o.instrument_id r.breaker_ms in
      let both =
        IsUncounted-trans s s' s'' first
          (evaluate_risk_limits-IsUncounted limits s' o r.breach_ms) in
      let h' = IsWord-of_IsUncounted s s' first h in
      let h'' = IsWord-of_IsUncounted s s'' both h in
      evaluate_order_cases limits var (Counts s) s o r (λ e. ground arith)
        (λ _ _. reject_by_kill_switch-Counts s r h)
        (λ e. Counts-of_IsUncounted s s' _ first (finish_rejection-Counts s' cb r h' e))
        (λ e. Counts-of_IsUncounted s s'' _ both (finish_rejection-Counts s'' lim r h'' e))
        (λ e.
          Counts-of_IsUncounted s s'' _ both
            (finish_rejection-Counts s'' (evaluate_var var s'' o) r h'' e))
        (λ _. Counts-of_IsUncounted s s'' _ both (finish_acceptance-Counts s'' lim r h''))
