-- ===== src/RiskLimits/Validation.antt =====
-- What `validateTraderExposure` answers, and what it changes.
use text.Mathlib.Text.{◌==◌}
use text.Mathlib.TextEquality.{eq_iff}
use challenge_8a2ffd.Common.{
  ◌≡◌, refl, ap, ◌∙◌, inl, inr, Bool, true, false, not, ◌&&◌, Option, none, some, String, inc64,
  if◌then◌else◌, Bool-cases, Option-cases,
}
use challenge_8a2ffd.Common.Double.{Double}
use challenge_8a2ffd.Common.TextMaps.{find_text, find_text-assign_text}
use challenge_8a2ffd.RiskLimits.{
  InstrumentLimits, TraderLimits, RiskLimitsManager, default_instrument, adjusted_limit, new_trader,
  block, check_total_exposure, check_exposure_limit, get_instrument_limits, get_strategy_limits,
  strategy_allows, put_trader, count_violation, refuse, get_or_create_trader, validate_instrument,
  validate_trader, validate_trader_exposure,
}

-- The entry for a trader, new if there is none.
abbrev or_new : {D : Type 0} ⦃d : Double D⦄ → String → Option (TraderLimits D) → TraderLimits D
or_new trader_id none = new_trader trader_id
or_new trader_id (some t) = t

abbrev or_default : {D : Type 0} ⦃d : Double D⦄ → Option (InstrumentLimits D) → InstrumentLimits D
or_default none = default_instrument
or_default (some l) = l

abbrev pub blocked_entry : {D : Type 0} → Option (TraderLimits D) → Bool
blocked_entry none = false
blocked_entry (some t) = t.blocked

-- Whether a trader is blocked.
abbrev pub is_blocked : {D : Type 0} → RiskLimitsManager D → String → Bool
is_blocked m trader_id = blocked_entry (find_text m.traders trader_id)

same_text : (s : String) → (s == s) ≡ true
same_text s = (eq_iff s s).1 refl

module _ {D : Type 0} ⦃d : Double D⦄ where
  -- A trader that is not blocked, is within the total limit and the value at risk of the strategy,
  -- and within the limit of the instrument.
  abbrev trader_allows : TraderLimits D → String → String → D → D → Bool
  trader_allows t strategy_id instrument_id exposure volatility =
      not t.blocked
      && (check_total_exposure t exposure volatility
          && (strategy_allows (get_strategy_limits t strategy_id) volatility
              && check_exposure_limit (or_default (find_text t.instrument_limits instrument_id))
                  exposure volatility))

  abbrev pub allows : RiskLimitsManager D → String → String → String → D → D → Bool
  allows m trader_id = trader_allows (or_new trader_id (find_text m.traders trader_id))

  trader_allows_blocked :
      (o : Option (TraderLimits D)) (trader_id strategy_id instrument_id : String)
      (exposure volatility : D)
      → blocked_entry o ≡ true
      → trader_allows (or_new trader_id o) strategy_id instrument_id exposure volatility ≡ false
  trader_allows_blocked none trader_id strategy_id instrument_id exposure volatility h = absurd cc
  trader_allows_blocked (some t) trader_id strategy_id instrument_id exposure volatility h =
      simp h refl

  pub allows_blocked :
      (m : RiskLimitsManager D) (trader_id strategy_id instrument_id : String)
      (exposure volatility : D)
      → is_blocked m trader_id ≡ true
      → allows m trader_id strategy_id instrument_id exposure volatility ≡ false
  allows_blocked m trader_id = trader_allows_blocked (find_text m.traders trader_id) trader_id

  pub allows_unknown :
      (m : RiskLimitsManager D) (trader_id strategy_id instrument_id : String)
      (exposure volatility : D)
      → find_text m.traders trader_id ≡ none
      → d.le exposure (d.mul (d.of_ℕ 0) (d.add (d.of_ℕ 1) (d.mul (d.of_ℕ 1) volatility))) ≡ false
      → allows m trader_id strategy_id instrument_id exposure volatility ≡ false
  unfolding check_total_exposure adjusted_limit new_trader
  allows_unknown m trader_id strategy_id instrument_id exposure volatility unknown h =
      rw unknown (rw h refl)

  -- What a validation makes of the manager when the checks come out as `allowed`.
  abbrev pub Validates : RiskLimitsManager D → String → Bool → RiskLimitsManager D × Bool → Type 0
  Validates m trader_id allowed r =
      (r.1 ≡ allowed)
      × (is_blocked r.0 trader_id ≡ not allowed)
      × (r.0.global_violation_count
          ≡ (if allowed then m.global_violation_count else inc64 m.global_violation_count))

  find-put_trader :
      (m : RiskLimitsManager D) (trader_id : String) (t : TraderLimits D)
      → find_text (put_trader m trader_id t).traders trader_id ≡ some t
  unfolding put_trader
  find-put_trader m trader_id t =
      find_text-assign_text m.traders trader_id t trader_id
      ∙ ap (λ b. if b then some t else find_text m.traders trader_id) (same_text trader_id)

  refuse-Validates :
      (m : RiskLimitsManager D) (trader_id : String) (t : TraderLimits D)
      → Validates m trader_id false (refuse m trader_id t)
  unfolding refuse count_violation put_trader block
  refuse-Validates m trader_id t =
      (refl, ap blocked_entry (find-put_trader m trader_id (block t)), refl)

  put_trader-Validates :
      (m : RiskLimitsManager D) (trader_id : String) (t : TraderLimits D)
      → t.blocked ≡ false
      → Validates m trader_id true (put_trader m trader_id t, true)
  unfolding put_trader
  put_trader-Validates m trader_id t h =
      (refl, ap blocked_entry (find-put_trader m trader_id t) ∙ h, refl)

  validate_instrument-Validates :
      (m : RiskLimitsManager D) (trader_id : String) (t : TraderLimits D) (instrument_id : String)
      (exposure volatility : D)
      → t.blocked ≡ false
      → Validates m trader_id
          (check_exposure_limit
            (or_default (find_text t.instrument_limits instrument_id))
            exposure
            volatility)
          (validate_instrument m trader_id t instrument_id exposure volatility)
  unfolding validate_instrument get_instrument_limits
  validate_instrument-Validates m trader_id t instrument_id exposure volatility h =
      elim (Option-cases (find_text t.instrument_limits instrument_id)) [
        | inl e ↦
            simp (get_instrument_limits, e)
              (elim (Bool-cases (check_exposure_limit default_instrument exposure volatility)) [
                | inl c ↦ rw c (put_trader-Validates m trader_id _ h)
                | inr c ↦ rw c (refuse-Validates m trader_id _)
              ])
        | inr (l, e) ↦
            simp (get_instrument_limits, e)
              (elim (Bool-cases (check_exposure_limit l exposure volatility)) [
                | inl c ↦ rw c (put_trader-Validates m trader_id _ h)
                | inr c ↦ rw c (refuse-Validates m trader_id _)
              ])
      ]

  validate_trader-Validates :
      (m : RiskLimitsManager D) (trader_id : String) (t : TraderLimits D)
      (strategy_id instrument_id : String) (exposure volatility : D)
      → find_text m.traders trader_id ≡ some t
      → Validates m trader_id
          (trader_allows t strategy_id instrument_id exposure volatility)
          (validate_trader m trader_id t strategy_id instrument_id exposure volatility)
  unfolding validate_trader count_violation
  validate_trader-Validates m trader_id t strategy_id instrument_id exposure volatility h =
      elim (Bool-cases t.blocked) [
        | inl b ↦ simp b (refl, ap blocked_entry h ∙ b, refl)
        | inr b ↦ simp b (elim (Bool-cases (check_total_exposure t exposure volatility)) [
          | inr c ↦ rw c (refuse-Validates m trader_id t)
          | inl c ↦
              rw c
                (elim (Bool-cases
                  (strategy_allows (get_strategy_limits t strategy_id) volatility)) [
                    | inr c' ↦ rw c' (refuse-Validates m trader_id t)
                    | inl c' ↦ rw c' (
                        validate_instrument-Validates m trader_id t instrument_id exposure
                          volatility b)
                  ])
        ])
      ]

  -- `validateTraderExposure` allows an exposure exactly if the trader is not blocked and its total,
  -- its strategy's value at risk and the instrument's exposure are within their limits. Afterwards
  -- the trader is blocked exactly if the answer is no, and each no, and nothing else, is counted in
  -- the global number of violations.
  pub validate_trader_exposure-Validates :
      (m : RiskLimitsManager D) (trader_id strategy_id instrument_id : String)
      (exposure volatility : D)
      → Validates m trader_id
          (allows m trader_id strategy_id instrument_id exposure volatility)
          (validate_trader_exposure m trader_id strategy_id instrument_id exposure volatility)
  unfolding validate_trader_exposure get_or_create_trader put_trader
  validate_trader_exposure-Validates m trader_id strategy_id instrument_id exposure volatility =
      elim (Option-cases (find_text m.traders trader_id)) [
        | inr (t, e) ↦
            simp (get_or_create_trader, e)
              (validate_trader-Validates m trader_id t strategy_id instrument_id exposure volatility
                e)
        | inl e ↦
            let made = new_trader trader_id in
            simp (get_or_create_trader, e)
              (validate_trader-Validates (put_trader m trader_id made) trader_id made strategy_id
                instrument_id exposure volatility (find-put_trader m trader_id made))
      ]
