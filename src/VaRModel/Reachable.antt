-- ===== src/VaRModel/Reachable.antt =====
-- What holds of every model after any sequence of calls (src/domain/VaRModel.h).
use mathlib.Core.Path.{subst}
use mathlib.Core.List.{append-nil}
use challenge_8a2ffd.Common.{
  suc, ◌-◌, ◌%◌, ◌^◌, ◌≤◌, ◌<◌, ◌≡◌, refl, sym, ap, ◌∙◌, true, not, ◌&&◌, ◌||◌, String, List, [],
  ◌∷◌, ◌++◌, arith, set, length, length-append, length-replicate, ltb, if◌then◌else◌, if-cases,
  if-intro, Bool-cases, inl, inr,
}
use challenge_8a2ffd.Common.Double.{Double}
use challenge_8a2ffd.Common.Int.{ℤ}
use challenge_8a2ffd.VaRModel.{
  VaRModel, VaRResult, VaRCalibrationParams, PriceObservation, Maths, max_observations,
  min_volatility, last_price, tail_of, push_observation, new_model, weigh, volatility_of,
  start_index, min_size, no_weights,
}
use challenge_8a2ffd.VaRModel.Operations.{
  calculate_ewma_volatility, add_return_to, add_next, add_to, add_observation, calculate,
  recalibrate,
}
use challenge_8a2ffd.VaRModel.Window.{IsWindow, set-IsWindow, reference_volatility, weigh-recent}

module _ {D : Type 0} ⦃d : Double D⦄ ⦃m : Maths D⦄ where
  -- The return that an observation adds, if both prices are positive.
  abbrev pub new_returns : List (PriceObservation D) → PriceObservation D → List D
  new_returns [] obs = []
  new_returns (first ∷ history) obs =
      if d.lt (d.lit 0 1) (last_price first.price history) && d.lt (d.lit 0 1) obs.price
      then m.log (d.div obs.price (last_price first.price history)) ∷ []
      else []

  -- The models that calls lead to, with all returns that they were given, the oldest first.
  pub data Reaches : List D → VaRModel D → Type 0 where
    created :
        (instrument : String) (params : VaRCalibrationParams D)
        → Reaches [] (new_model instrument params)
    observed :
        {returns : List D} {v : VaRModel D}
        → Reaches returns v
        → (obs : PriceObservation D) (now : ℤ)
        → Reaches (returns ++ new_returns v.price_history obs) (add_observation obs now v)
    calculated :
        {returns : List D} {v : VaRModel D}
        → Reaches returns v
        → (position price : D) (now : ℤ) → Reaches returns (calculate position price now v).0
    recalibrated :
        {returns : List D} {v : VaRModel D}
        → Reaches returns v
        → (params : VaRCalibrationParams D) → Reaches returns (recalibrate params v)

  -- The counters and the ring agree with the returns.
  pub record IsSound (returns : List D) (v : VaRModel D) : Type 0 where
    pub counted : v.observation_count ≡ length returns
    pub window : IsWindow returns v.returns_buffer
    pub history : length v.price_history ≤ max_observations
    pub computed : v.calibrated ≡ true → v.current_volatility ≡ calculate_ewma_volatility v

  calculate_ewma_volatility-reference :
      (returns : List D) (v : VaRModel D)
      → IsSound returns v
      → calculate_ewma_volatility v ≡ reference_volatility v.lambda returns
  unfolding calculate_ewma_volatility
  calculate_ewma_volatility-reference returns v s =
      ap
        (λ n.
          if ltb n 2
          then min_volatility
          else volatility_of (
              weigh v.lambda v.returns_buffer (start_index n) (min_size n max_observations) 0
                no_weights))
        s.counted
      ∙ ap (λ w. if ltb (length returns) 2 then min_volatility else volatility_of w)
          (weigh-recent v.lambda returns v.returns_buffer s.window)

  created-IsSound :
      (instrument : String) (params : VaRCalibrationParams D)
      → IsSound [] (new_model instrument params)
  unfolding new_model
  created-IsSound instrument params = record {
    counted = refl;
    window = record {
      sized = length-replicate max_observations (d.lit 0 1);
      held = λ j inside last. absurd (omega arith);
    };
    history = omega arith;
    computed = λ e. absurd cc;
  }

  length-tail_of :
      (history : List (PriceObservation D)) → length (tail_of history) ≤ length history - 1
  length-tail_of [] = omega arith
  length-tail_of (obs ∷ history) = omega arith

  length-push_observation :
      (history : List (PriceObservation D)) (obs : PriceObservation D)
      → length history ≤ max_observations
      → length (push_observation history obs) ≤ max_observations
  unfolding push_observation
  length-push_observation history obs h =
      let size = length-append history (obs ∷ []) in
      let shorter = length-tail_of (history ++ (obs ∷ [])) in
      if-cases (λ l. length l ≤ max_observations)
        (ltb max_observations (length (history ++ (obs ∷ []))))
        {x = tail_of (history ++ (obs ∷ []))} {y = history ++ (obs ∷ [])} (λ t. omega arith)
        λ t. ground arith

  add_return_to-IsSound :
      (returns : List D) (r : D) (v : VaRModel D)
      → suc (length returns) < 2 ^ 64
      → IsSound returns v
      → IsSound (returns ++ (r ∷ [])) (add_return_to r v)
  unfolding add_return_to calculate_ewma_volatility
  add_return_to-IsSound returns r v small s = record {
    counted = omega (arith, s.counted, length-append returns (r ∷ []));
    window =
        subst (λ n. IsWindow (returns ++ (r ∷ [])) (set v.returns_buffer (n % max_observations) r))
          (sym s.counted) (set-IsWindow returns v.returns_buffer r s.window);
    history = s.history;
    computed = λ _. refl;
  }

  add_next-IsSound :
      (returns : List D) (first obs : PriceObservation D) (history : List (PriceObservation D))
      (v : VaRModel D)
      → suc (length returns) < 2 ^ 64
      → IsSound returns v
      → IsSound
          (returns ++ new_returns (first ∷ history) obs)
          (add_next obs (last_price first.price history) v)
  add_next-IsSound returns first obs history v small s =
      let previous : D = last_price first.price history in
      elim (Bool-cases (d.lt (d.lit 0 1) previous && d.lt (d.lit 0 1) obs.price)) [
        | inl t ↦
            simp t (add_return_to-IsSound returns (m.log (d.div obs.price previous)) v small s)
        | inr t ↦ simp (t, append-nil) s
      ]

  add_to-IsSound :
      (returns : List D) (history : List (PriceObservation D)) (obs : PriceObservation D) (now : ℤ)
      (v : VaRModel D)
      → suc (length returns) < 2 ^ 64
      → IsSound returns v
      → IsSound (returns ++ new_returns history obs) (add_to history obs now v)
  unfolding calculate_ewma_volatility
  add_to-IsSound returns [] obs now v small s = rw append-nil (record {
    counted = s.counted;
    window = s.window;
    history = omega arith;
    computed = s.computed;
  })
  add_to-IsSound returns (first ∷ history) obs now v small s =
      let next = add_next-IsSound returns first obs history v small s in
      let v' : VaRModel D = add_next obs (last_price first.price history) v in
      record {
        counted = next.counted;
        window = next.window;
        history = length-push_observation v'.price_history obs next.history;
        computed = next.computed;
      }

  calculate-IsSound :
      (returns : List D) (position price : D) (now : ℤ) (v : VaRModel D)
      → IsSound returns v
      → IsSound returns (calculate position price now v).0
  unfolding calculate calculate_ewma_volatility
  calculate-IsSound returns position price now v s =
      if-intro {A = VaRModel D × VaRResult D} (λ outcome. IsSound returns outcome.0)
        (not v.calibrated || d.lt v.current_volatility min_volatility)
        (record {
          counted = s.counted;
          window = s.window;
          history = s.history;
          computed = s.computed;
        })
        (record {
          counted = s.counted;
          window = s.window;
          history = s.history;
          computed = s.computed;
        })

  recalibrate-IsSound :
      (returns : List D) (params : VaRCalibrationParams D) (v : VaRModel D)
      → IsSound returns v
      → IsSound returns (recalibrate params v)
  unfolding recalibrate calculate_ewma_volatility
  recalibrate-IsSound returns params v s = record {
    counted = s.counted;
    window = s.window;
    history = s.history;
    computed = λ _. refl;
  }

  pub Reaches-IsSound :
      {returns : List D} {v : VaRModel D}
      → Reaches returns v
      → suc (length returns) < 2 ^ 64
      → IsSound returns v
  unfolding add_observation
  Reaches-IsSound (created instrument params) small = created-IsSound instrument params
  Reaches-IsSound (observed {returns} {v} r obs now) small =
      let size = length-append returns (new_returns v.price_history obs) in
      add_to-IsSound returns v.price_history obs now v (omega arith)
        (Reaches-IsSound r (omega arith))
  Reaches-IsSound (calculated {returns} {v} r position price now) small =
      calculate-IsSound returns position price now v (Reaches-IsSound r small)
  Reaches-IsSound (recalibrated {returns} {v} r params) small =
      recalibrate-IsSound returns params v (Reaches-IsSound r small)

  -- After any sequence of calls the volatility of a calibrated model is that of the last thousand
  -- returns it was given, the oldest with weight 1 and each later one with a weight smaller by the
  -- factor lambda, and no more than a thousand prices are kept. Fewer than 2 ^ 64 - 1 returns were
  -- given.
  pub Reaches-volatility :
      {returns : List D} {v : VaRModel D}
      → Reaches returns v
      → suc (length returns) < 2 ^ 64
      → v.calibrated ≡ true
      → (v.current_volatility ≡ reference_volatility v.lambda returns)
        × (length v.price_history ≤ 1000)
  Reaches-volatility {returns} {v} r small calibrated =
      let s = Reaches-IsSound r small in
      (s.computed calibrated ∙ calculate_ewma_volatility-reference returns v s, s.history)
