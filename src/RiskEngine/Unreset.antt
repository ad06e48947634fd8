-- ===== src/RiskEngine/Unreset.antt =====
-- A breaker that nobody resets by hand (src/core/RiskEngine.cpp).
use mathlib.Core.Path.{subst}
use mathlib.Core.Option.{some-injective}
use challenge_8a2ffd.Common.{ℕ, ◌^◌, ◌<◌, ◌≡◌, ◌≢◌, refl, ◌∙◌, false, Option, none, some, arith}
use challenge_8a2ffd.Common.Double.{Double}
use challenge_8a2ffd.MarketData.Cache.{MarketDataCache}
use challenge_8a2ffd.RiskEngine.Types.{is_reject}
use challenge_8a2ffd.RiskEngine.State.{
  RiskLimits, VarModel, RiskEngine, max_instruments, construct, reset_circuit_breaker,
  reset_kill_switch, set_risk_event_handler, on_market_data, circuit_breaker_reset_timeout_ms,
}
use challenge_8a2ffd.RiskEngine.Breaker.{check_circuit_breaker}
use challenge_8a2ffd.RiskEngine.Breaker.Transitions.{Moves-last_reset}
use challenge_8a2ffd.RiskEngine.Evaluate.Breakers.{evaluate_order-Moves}
use challenge_8a2ffd.RiskEngine.Reachable.{
  Step, evaluates, receives, resets_breaker, resets_switch, sets_handler, Reach, start, then_calls,
}

module _ {D V : Type 0} ⦃d : Double D⦄ (var : VarModel D V) where
  -- A call that does not reset breaker `i`, and such calls one after the other.
  abbrev pub LeavesReset : {s t : RiskEngine D V} → ℕ → Step var s t → Type 0
  LeavesReset i (evaluates limits o r) = Unit
  LeavesReset i (receives clock e) = Unit
  LeavesReset i (resets_breaker j now_ms) = j ≢ i
  LeavesReset i (resets_switch now_ms) = Unit
  LeavesReset i (sets_handler handler) = Unit

  abbrev pub NeverResets : {s t : RiskEngine D V} → ℕ → Reach var s t → Type 0
  NeverResets i start = Unit
  NeverResets i (then_calls c k) = NeverResets i c × LeavesReset i k

  Step-last_reset :
      (i : ℕ) {s t : RiskEngine D V} (k : Step var s t)
      → LeavesReset i k
      → (t.circuit_breakers i).last_reset_timestamp ≡ (s.circuit_breakers i).last_reset_timestamp
  unfolding on_market_data reset_circuit_breaker reset_kill_switch set_risk_event_handler
  Step-last_reset i {s} (evaluates limits o r) h =
      Moves-last_reset (evaluate_order-Moves limits var s o r i)
  Step-last_reset i (receives clock e) h = refl
  Step-last_reset i {s} (resets_breaker j now_ms) h = ground arith
  Step-last_reset i (resets_switch now_ms) h = refl
  Step-last_reset i (sets_handler handler) h = refl

  Reach-last_reset :
      (i : ℕ) {s t : RiskEngine D V} (c : Reach var s t)
      → NeverResets i c
      → (t.circuit_breakers i).last_reset_timestamp ≡ (s.circuit_breakers i).last_reset_timestamp
  Reach-last_reset i start h = refl
  Reach-last_reset i (then_calls c k) (hs, h) = Step-last_reset i k h ∙ Reach-last_reset i c hs

  construct-last_reset :
      (cache : Option MarketDataCache) (limits : Option (RiskLimits D)) (v : Option V)
      (shard_id start_ms i : ℕ) (s : RiskEngine D V)
      → construct cache limits v shard_id start_ms ≡ some s
      → (s.circuit_breakers i).last_reset_timestamp ≡ 0
  unfolding construct
  construct-last_reset (some cache) (some limits) (some v) shard_id start_ms i s e =
      subst (λ s. (s.circuit_breakers i).last_reset_timestamp ≡ 0) (some-injective _ _ e) refl
  construct-last_reset (some cache) (some limits) none shard_id start_ms i s e = cc
  construct-last_reset (some cache) none v shard_id start_ms i s e = cc
  construct-last_reset none limits v shard_id start_ms i s e = cc

  -- Whatever calls follow the construction of an engine, as long as none resets the breaker of an
  -- instrument by hand, the breaker lets every order past, though it be open, as soon as the clock
  -- shows more than 5 seconds since 1970. The instrument is one that the engine has a breaker of, and
  -- the clock is below 2 ^ 64.
  pub unreset_admits :
      (cache : Option MarketDataCache) (limits : Option (RiskLimits D)) (v : Option V)
      (shard_id start_ms : ℕ) (s t : RiskEngine D V) (i now_ms : ℕ)
      → construct cache limits v shard_id start_ms ≡ some s
      → (c : Reach var s t) → NeverResets i c
      → i < max_instruments
      → circuit_breaker_reset_timeout_ms < now_ms
      → now_ms < 2 ^ 64
      → is_reject (check_circuit_breaker t i now_ms).1.decision ≡ false
  unfolding check_circuit_breaker
  unreset_admits cache limits v shard_id start_ms s t i now_ms e c unreset h k w = ground (
    arith,
    Reach-last_reset i c unreset,
    construct-last_reset cache limits v shard_id start_ms i s e,
  )
