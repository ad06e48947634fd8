-- ===== src/VaRModel/Operations.antt =====
-- The operations of `VaRModel` (src/domain/VaRModel.h).
use challenge_8a2ffd.Common.{
  ℕ, zero, suc, ◌+◌, ◌-◌, ◌%◌, true, false, not, ◌&&◌, ◌||◌, List, [], ◌∷◌, set, ltb, leb,
  if◌then◌else◌, inc64,
}
use challenge_8a2ffd.Common.Double.{Double}
use challenge_8a2ffd.Common.Int.{ℤ, ◌-ℤ◌, ◌/ℤ◌}
use challenge_8a2ffd.RiskLimits.{double_abs}
use challenge_8a2ffd.VaRModel.{
  VaRModel, VaRResult, VaRCalibrationParams, PriceObservation, Maths, max_observations,
  min_volatility, last_price, push_observation, as_size, min_size, clamp, calculate_risk_factor,
  return_at, weigh, no_weights, volatility_of, start_index,
}

module _ {D : Type 0} ⦃d : Double D⦄ ⦃m : Maths D⦄ where
  unfoldable pub calculate_ewma_volatility : VaRModel D → D
  calculate_ewma_volatility v =
      if ltb v.observation_count 2
      then min_volatility
      else volatility_of (
          weigh v.lambda v.returns_buffer (start_index v.observation_count)
            (min_size v.observation_count max_observations) 0 no_weights)

  -- A return is stored and the volatility is computed anew.
  unfoldable pub add_return_to : D → VaRModel D → VaRModel D
  add_return_to log_return v =
      let stored = record v {
        returns_buffer = set v.returns_buffer (v.observation_count % max_observations) log_return;
        observation_count = inc64 v.observation_count;
      } in
      record stored { current_volatility = calculate_ewma_volatility stored; calibrated = true }

  -- What follows the first observation.
  abbrev pub add_next : PriceObservation D → D → VaRModel D → VaRModel D
  add_next obs previous v =
      if d.lt (d.lit 0 1) previous && d.lt (d.lit 0 1) obs.price
      then add_return_to (m.log (d.div obs.price previous)) v
      else v

  abbrev pub add_to : List (PriceObservation D) → PriceObservation D → ℤ → VaRModel D → VaRModel D
  add_to [] obs now v = record v { price_history = obs ∷ [] }
  add_to (first ∷ history) obs now v =
      let next = add_next obs (last_price first.price history) v in
      record next { price_history = push_observation next.price_history obs; last_update = now }

  unfoldable pub add_observation : PriceObservation D → ℤ → VaRModel D → VaRModel D
  add_observation obs now v = add_to v.price_history obs now v

  unfoldable pub calculate_parametric_var : D → D → D → VaRModel D → D
  calculate_parametric_var position price volatility v =
      if d.le price (d.lit 0 1) || d.le volatility (d.lit 0 1)
      then d.lit 0 1
      else d.mul (d.mul (double_abs position) price) (d.mul v.risk_factor volatility)

  -- The sum of so many returns from turn `i` on.
  unfoldable pub sum_returns : List D → ℕ → ℕ → ℕ → D → D
  sum_returns buffer start zero i sum = sum
  sum_returns buffer start (suc iterations) i sum =
      sum_returns buffer start iterations (suc i)
        (d.add sum (return_at buffer ((start + i) % max_observations)))

  unfoldable pub calculate_expected_return : VaRModel D → D
  calculate_expected_return v =
      let count = min_size v.observation_count (as_size v.params.lookback_days) in
      let start =
        if leb count v.observation_count
        then (v.observation_count - count) % max_observations
        else 0 in
      if ltb count 2
      then d.lit 0 1
      else d.div (sum_returns v.returns_buffer start count 0 (d.lit 0 1)) (d.of_ℕ count)

  -- A minute has 60 * 10 ^ 9 nanoseconds.
  unfoldable pub calculate_time_decay : ℤ → VaRModel D → D
  calculate_time_decay now v =
      let elapsed = (now -ℤ v.last_update) /ℤ 60000000000 in
      clamp (m.pow v.lambda (d.div (d.of_ℤ elapsed) (d.lit 60 1))) (d.lit 5 10) (d.lit 15 10)

  abbrev pub scaled_volatility : VaRModel D → D
  scaled_volatility v =
      if v.params.use_intraday_scaling
      then d.mul v.current_volatility v.params.intraday_scaling_factor
      else v.current_volatility

  -- The result's own time is that of its construction.
  unfoldable pub calculate : D → D → ℤ → VaRModel D → VaRModel D × VaRResult D
  calculate position price now v =
      let counted = record v { calculation_count = inc64 v.calculation_count } in
      let amount =
        d.mul (calculate_parametric_var position price (scaled_volatility v) v)
          (calculate_time_decay now v) in
      if not v.calibrated || d.lt v.current_volatility min_volatility
      then (
        counted,
        record {
          var_amount = d.lit 0 1;
          confidence_level = v.params.confidence_level;
          volatility = d.lit 0 1;
          expected_return = d.lit 0 1;
          calculation_time = now;
          is_valid = false;
        },
      )
      else (
        record counted { current_var = amount },
        record {
          var_amount = amount;
          confidence_level = v.params.confidence_level;
          volatility = scaled_volatility v;
          expected_return = calculate_expected_return v;
          calculation_time = now;
          is_valid = true;
        },
      )

  unfoldable pub recalibrate : VaRCalibrationParams D → VaRModel D → VaRModel D
  recalibrate params v =
      let changed = record v {
        params = params;
        lambda = params.decay_factor;
        risk_factor = calculate_risk_factor params.confidence_level;
      } in
      record changed { current_volatility = calculate_ewma_volatility changed }
