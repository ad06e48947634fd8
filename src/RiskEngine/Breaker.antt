-- ===== src/RiskEngine/Breaker.antt =====
-- `checkCircuitBreaker` and `updateCircuitBreakerState` of src/core/RiskEngine.cpp.
pub mod Transitions
use challenge_8a2ffd.Common.{ℕ, ◌≡◌, Bool, true, false, ltb, leb, if◌then◌else◌, sub64, inc64}
use challenge_8a2ffd.Common.Double.{Double}
use challenge_8a2ffd.RiskEngine.Types.{
  RiskEvaluationResult, reject, CircuitBreakerState, closed, opened, half_open, default_result,
  rejection_reason_circuit_breaker,
}
use challenge_8a2ffd.RiskEngine.State.{
  RiskEngine, CircuitBreakerData, max_instruments, circuit_breaker_reset_timeout_ms, set_breaker,
  reset_breaker,
}

-- The breaker after `updateCircuitBreakerState(_, true)`.
unfoldable pub breached_breaker : CircuitBreakerData → ℕ → CircuitBreakerData
breached_breaker cb now_ms =
    let counted : CircuitBreakerData = record cb {
      breach_count = inc64 cb.breach_count;
      last_breach_timestamp = now_ms;
    } in
    elim cb.state [
      | closed ↦ if leb 3 counted.breach_count then (record counted { state = opened }) else counted
      | half_open ↦ record counted { state = opened }
      | opened ↦ counted
    ]

-- The breaker after `updateCircuitBreakerState(_, false)`, with the clock that a reset reads.
unfoldable pub passed_breaker : CircuitBreakerData → ℕ → CircuitBreakerData
passed_breaker cb now_ms = elim cb.state [
  | half_open ↦ reset_breaker cb now_ms
  | closed ↦ cb
  | opened ↦ cb
]

module _ {D : Type 0} ⦃d : Double D⦄ where
  abbrev pub breaker_rejection : RiskEvaluationResult D
  breaker_rejection = record default_result {
    decision = reject;
    circuit_breaker = opened;
    rejection_reason = rejection_reason_circuit_breaker;
  }

  abbrev pub breaker_passed : CircuitBreakerState → RiskEvaluationResult D
  breaker_passed state = record default_result { circuit_breaker = state }

module _ {D V : Type 0} where
  unfoldable pub update_circuit_breaker_state : RiskEngine D V → ℕ → Bool → ℕ → RiskEngine D V
  update_circuit_breaker_state s i breached now_ms =
      if leb max_instruments i
      then s
      else if breached
      then set_breaker s i (breached_breaker (s.circuit_breakers i) now_ms)
      else set_breaker s i (passed_breaker (s.circuit_breakers i) now_ms)

  module _ ⦃d : Double D⦄ where
    -- The time since the reset is a difference of `uint64_t` values.
    unfoldable pub check_circuit_breaker :
        RiskEngine D V → ℕ → ℕ → RiskEngine D V × RiskEvaluationResult D
    check_circuit_breaker s i now_ms =
        if leb max_instruments i then (s, breaker_rejection) else (elim cb.state [
          | opened ↦
              if ltb circuit_breaker_reset_timeout_ms (sub64 now_ms cb.last_reset_timestamp)
              then (set_breaker s i (record cb { state = half_open }), breaker_passed half_open)
              else (s, breaker_rejection)
          | closed ↦ (s, breaker_passed closed)
          | half_open ↦ (s, breaker_passed half_open)
        ])
      where
        cb : CircuitBreakerData
        cb = s.circuit_breakers i
