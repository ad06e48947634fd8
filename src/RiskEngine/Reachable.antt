-- ===== src/RiskEngine/Reachable.antt =====
-- Every engine that the constructor and any sequence of calls can lead to.
use mathlib.Core.Path.{subst}
use mathlib.Core.Option.{some-injective}
use challenge_8a2ffd.Common.{
  ℕ, ◌<◌, ◌≡◌, ◌∙◌, ◌≢◌, inr, Option, none, some, arith, length, length-set, length-replicate,
  inc64,
}
use challenge_8a2ffd.Common.Double.{Double}
use challenge_8a2ffd.MarketData.Cache.{MarketDataCache}
use challenge_8a2ffd.MarketData.Event.{MarketDataEvent}
use challenge_8a2ffd.RiskEngine.Types.{RiskEvaluationResult, Order}
use challenge_8a2ffd.RiskEngine.State.{
  RiskLimits, VarModel, RiskEngine, Readings, latency_window_size, construct, reset_circuit_breaker,
  reset_kill_switch, set_risk_event_handler, on_market_data, initial_engine,
}
use challenge_8a2ffd.RiskEngine.Breaker.{check_circuit_breaker, update_circuit_breaker_state}
use challenge_8a2ffd.RiskEngine.Breaker.Transitions.{IsCalm, Moves-IsCalm}
use challenge_8a2ffd.RiskEngine.Checks.{
  evaluate_risk_limits, evaluate_var, check_kill_switch_anomaly,
}
use challenge_8a2ffd.RiskEngine.Evaluate.Cases.{evaluate_order_cases}
use challenge_8a2ffd.RiskEngine.Evaluate.Breakers.{evaluate_order-Moves}
use challenge_8a2ffd.RiskEngine.Evaluate.{
  evaluate_order, finish_rejection, finish_acceptance, reject_by_kill_switch, record_latency,
  emit_risk_event, latency, acceptance, kill_switch_rejection,
}

module _ {D V : Type 0} where
  -- The ring of latencies has its size and its index stands inside; the dependencies are there.
  pub record IsBacked (s : RiskEngine D V) : Type 0 where
    pub window_length : length s.latency_window ≡ latency_window_size
    pub index_lt : s.latency_index < latency_window_size
    pub cache_set : s.market_data_cache ≢ none
    pub model_set : s.var_model ≢ none

  -- What the checks leave alone of that.
  record SameBacking (s t : RiskEngine D V) : Type 0 where
    window : t.latency_window ≡ s.latency_window
    index : t.latency_index ≡ s.latency_index
    cache : t.market_data_cache ≡ s.market_data_cache
    model : t.var_model ≡ s.var_model

  SameBacking-IsBacked : (s t : RiskEngine D V) → SameBacking s t → IsBacked s → IsBacked t
  SameBacking-IsBacked s t same h = record {
    window_length = ground arith;
    index_lt = ground arith;
    cache_set = λ e. h.cache_set (ground arith);
    model_set = λ e. h.model_set (ground arith);
  }

  record_latency-IsBacked :
      (s : RiskEngine D V) (ns : ℕ) → IsBacked s → IsBacked (record_latency s ns)
  unfolding record_latency
  record_latency-IsBacked s ns h = record {
    window_length = length-set s.latency_window s.latency_index ns ∙ h.window_length;
    index_lt = omega arith;
    cache_set = h.cache_set;
    model_set = h.model_set;
  }

  emit_risk_event-SameBacking :
      (s : RiskEngine D V) (result : RiskEvaluationResult D)
      → SameBacking s (emit_risk_event s result)
  unfolding emit_risk_event
  emit_risk_event-SameBacking s result = ground arith

  -- The common end of all exits but the one of an invalid order.
  record_and_emit-IsBacked :
      (s : RiskEngine D V) (ns : ℕ) (result : RiskEvaluationResult D)
      → IsBacked s
      → IsBacked (emit_risk_event (record_latency s ns) result)
  record_and_emit-IsBacked s ns result h =
      SameBacking-IsBacked _ _ (emit_risk_event-SameBacking (record_latency s ns) result)
        (record_latency-IsBacked s ns h)

module _ {D V : Type 0} ⦃d : Double D⦄ where
  check_circuit_breaker-SameBacking :
      (s : RiskEngine D V) (i ms : ℕ) → SameBacking s (check_circuit_breaker s i ms).0
  unfolding check_circuit_breaker
  check_circuit_breaker-SameBacking s i ms = ground arith

  evaluate_risk_limits-SameBacking :
      (limits : RiskLimits D) (s : RiskEngine D V) (o : Order) (ms : ℕ)
      → SameBacking s (evaluate_risk_limits limits s o ms).0
  unfolding evaluate_risk_limits update_circuit_breaker_state
  evaluate_risk_limits-SameBacking limits s o ms = ground arith

  check_kill_switch_anomaly-SameBacking :
      (s : RiskEngine D V) (ms : ℕ) → SameBacking s (check_kill_switch_anomaly s ms)
  unfolding check_kill_switch_anomaly
  check_kill_switch_anomaly-SameBacking s ms = ground arith

  finish_rejection-IsBacked :
      (s : RiskEngine D V) (result : RiskEvaluationResult D) (r : Readings)
      → IsBacked s
      → IsBacked (finish_rejection s result r).0
  unfolding finish_rejection
  finish_rejection-IsBacked s result r h =
      let counted : RiskEngine D V = record s { rejected_orders = inc64 s.rejected_orders } in
      record_and_emit-IsBacked counted (latency r)
        (record result { evaluation_latency_ns = latency r })
        (SameBacking-IsBacked s counted (ground arith) h)

  reject_by_kill_switch-IsBacked :
      (s : RiskEngine D V) (r : Readings) → IsBacked s → IsBacked (reject_by_kill_switch s r).0
  unfolding reject_by_kill_switch
  reject_by_kill_switch-IsBacked s r h =
      let counted : RiskEngine D V = record s { rejected_orders = inc64 s.rejected_orders } in
      record_and_emit-IsBacked counted 0 (kill_switch_rejection r.stamp_us)
        (SameBacking-IsBacked s counted (ground arith) h)

  finish_acceptance-IsBacked :
      (s : RiskEngine D V) (result : RiskEvaluationResult D) (r : Readings)
      → IsBacked s
      → IsBacked (finish_acceptance s result r).0
  unfolding finish_acceptance
  finish_acceptance-IsBacked s result r h =
      let counted : RiskEngine D V = record s { processed_orders = inc64 s.processed_orders } in
      let watched = check_kill_switch_anomaly counted r.anomaly_ms in
      record_and_emit-IsBacked watched (latency r) (acceptance result r) (
        SameBacking-IsBacked counted watched
          (check_kill_switch_anomaly-SameBacking counted r.anomaly_ms)
          (SameBacking-IsBacked s counted (ground arith) h))

  evaluate_order-IsBacked :
      (limits : RiskLimits D) (var : VarModel D V) (s : RiskEngine D V) (o : Order) (r : Readings)
      → IsBacked s
      → IsBacked (evaluate_order limits var s o r).0
  evaluate_order-IsBacked limits var s o r h =
      let (s', cb) = check_circuit_breaker s o.instrument_id r.breaker_ms in
      let (s'', lim) = evaluate_risk_limits limits s' o r.breach_ms in
      let h' =
        SameBacking-IsBacked s s' (check_circuit_breaker-SameBacking s o.instrument_id r.breaker_ms)
          h in
      let h'' =
        SameBacking-IsBacked s' s'' (evaluate_risk_limits-SameBacking limits s' o r.breach_ms) h' in
      evaluate_order_cases limits var (λ out. IsBacked out.0) s o r
        (λ _. record_latency-IsBacked s 0 h) (λ _ _. reject_by_kill_switch-IsBacked s r h)
        (λ _. finish_rejection-IsBacked s' cb r h') (λ _. finish_rejection-IsBacked s'' lim r h'')
        (λ _. finish_rejection-IsBacked s'' (evaluate_var var s'' o) r h'')
        (λ _. finish_acceptance-IsBacked s'' lim r h'')

module _ {D V : Type 0} ⦃d : Double D⦄ (var : VarModel D V) where
  -- A call of the engine. The limits are as they stand at the call.
  pub data Step (s : RiskEngine D V) : RiskEngine D V → Type 0 where
    evaluates :
        (limits : RiskLimits D) (o : Order) (r : Readings)
        → Step s (evaluate_order limits var s o r).0
    receives : (clock : ℕ → ℕ) (e : MarketDataEvent) → Step s (on_market_data var s clock e)
    resets_breaker : (i now_ms : ℕ) → Step s (reset_circuit_breaker s i now_ms)
    resets_switch : (now_ms : ℕ) → Step s (reset_kill_switch s now_ms)
    sets_handler : (handler : ℕ) → Step s (set_risk_event_handler s handler)

  pub data Reach (s : RiskEngine D V) : RiskEngine D V → Type 0 where
    start : Reach s s
    then_calls : {t u : RiskEngine D V} → Reach s t → Step t u → Reach s u

  -- The ring, the dependencies, and no breaker closed after a third breach.
  pub record IsEngine (s : RiskEngine D V) : Type 0 where
    pub backed : IsBacked s
    pub calm : (j : ℕ) → IsCalm (s.circuit_breakers j)

  on_market_data-IsBacked :
      (s : RiskEngine D V) (clock : ℕ → ℕ) (e : MarketDataEvent)
      → IsBacked s
      → IsBacked (on_market_data var s clock e)
  unfolding on_market_data
  on_market_data-IsBacked s clock e h = record {
    window_length = h.window_length;
    index_lt = h.index_lt;
    cache_set = λ p. h.cache_set (ground arith);
    model_set = λ p. h.model_set (ground arith);
  }

  reset_circuit_breaker-IsBacked :
      (s : RiskEngine D V) (i ms : ℕ) → IsBacked s → IsBacked (reset_circuit_breaker s i ms)
  unfolding reset_circuit_breaker
  reset_circuit_breaker-IsBacked s i ms h =
      SameBacking-IsBacked s (reset_circuit_breaker s i ms) (ground arith) h

  reset_circuit_breaker-IsCalm :
      (s : RiskEngine D V) (i ms : ℕ)
      → ((j : ℕ) → IsCalm (s.circuit_breakers j))
      → (j : ℕ) → IsCalm ((reset_circuit_breaker s i ms).circuit_breakers j)
  unfolding reset_circuit_breaker
  reset_circuit_breaker-IsCalm s i ms h j = ground (arith, h j)

  Step-IsEngine : {s t : RiskEngine D V} → Step s t → IsEngine s → IsEngine t
  unfolding on_market_data reset_kill_switch set_risk_event_handler
  Step-IsEngine {s} (evaluates limits o r) h = record {
    backed = evaluate_order-IsBacked limits var s o r h.backed;
    calm = λ j. Moves-IsCalm (evaluate_order-Moves limits var s o r j) (h.calm j);
  }
  Step-IsEngine {s} (receives clock e) h = record {
    backed = on_market_data-IsBacked s clock e h.backed;
    calm = h.calm;
  }
  Step-IsEngine {s} (resets_breaker i now_ms) h = record {
    backed = reset_circuit_breaker-IsBacked s i now_ms h.backed;
    calm = reset_circuit_breaker-IsCalm s i now_ms h.calm;
  }
  Step-IsEngine (resets_switch now_ms) h = record { backed = ground arith; calm = h.calm }
  Step-IsEngine (sets_handler handler) h = record { backed = ground arith; calm = h.calm }

  Reach-IsEngine : {s t : RiskEngine D V} → Reach s t → IsEngine s → IsEngine t
  Reach-IsEngine start h = h
  Reach-IsEngine (then_calls c k) h = Step-IsEngine k (Reach-IsEngine c h)

  initial_engine-IsEngine :
      (cache : MarketDataCache) (v : V) (shard_id now_ms : ℕ)
      → IsEngine (initial_engine cache v shard_id now_ms)
  initial_engine-IsEngine cache v shard_id now_ms = record {
    backed = record {
      window_length = length-replicate latency_window_size 0;
      index_lt = omega arith;
      cache_set = λ e. cc;
      model_set = λ e. cc;
    };
    calm = λ j. inr (omega arith);
  }

  -- Whatever calls follow the construction of an engine, the write into the ring of latencies is in
  -- bounds, cache and model are never null, and a breaker that is closed has counted two breaches at
  -- most.
  pub construct-IsEngine :
      (cache : Option MarketDataCache) (limits : Option (RiskLimits D)) (v : Option V)
      (shard_id now_ms : ℕ) (s t : RiskEngine D V)
      → construct cache limits v shard_id now_ms ≡ some s
      → Reach s t
      → IsEngine t
  unfolding construct
  construct-IsEngine (some cache) (some limits) (some v) shard_id now_ms s t e c =
      Reach-IsEngine c
        (subst IsEngine (some-injective _ _ e) (initial_engine-IsEngine cache v shard_id now_ms))
  construct-IsEngine (some cache) (some limits) none shard_id now_ms s t e c = cc
  construct-IsEngine (some cache) none v shard_id now_ms s t e c = cc
  construct-IsEngine none limits v shard_id now_ms s t e c = cc
