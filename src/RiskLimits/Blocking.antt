-- ===== src/RiskLimits/Blocking.antt =====
-- A validation touches one trader, and a blocked trader stays blocked.
use text.Mathlib.Text.{◌==◌}
use text.Mathlib.TextEquality.{eq_iff}
use mathlib.Core.Path.{subst}
use challenge_8a2ffd.Common.{
  ◌≡◌, refl, ap, sym, ◌∙◌, inl, inr, Bool, true, false, not, none, some, String, List, [], ◌∷◌,
  if◌then◌else◌, if-intro, Bool-cases, Option-cases,
}
use challenge_8a2ffd.Common.Double.{Double}
use challenge_8a2ffd.Common.TextMaps.{find_text, find_text-assign_text}
use challenge_8a2ffd.RiskLimits.{
  TraderLimits, RiskLimitsManager, new_trader, block, check_total_exposure, check_exposure_limit,
  get_instrument_limits, get_strategy_limits, strategy_allows, put_trader, count_violation, refuse,
  get_or_create_trader, validate_instrument, validate_trader, validate_trader_exposure,
}
use challenge_8a2ffd.RiskLimits.Validation.{
  is_blocked, blocked_entry, allows_blocked, allows_unknown, validate_trader_exposure-Validates,
}

-- One call of `validateTraderExposure`.
pub record Request (D : Type 0) : Type 0 where
  pub trader_id : String
  pub strategy_id : String
  pub instrument_id : String
  pub exposure : D
  pub volatility : D

module _ {D : Type 0} ⦃d : Double D⦄ where
  unfoldable pub validate : RiskLimitsManager D → Request D → RiskLimitsManager D × Bool
  validate m r =
      validate_trader_exposure m r.trader_id r.strategy_id r.instrument_id r.exposure r.volatility

  unfoldable pub validate_all : RiskLimitsManager D → List (Request D) → RiskLimitsManager D
  unfolding validate
  validate_all m [] = m
  validate_all m (r ∷ l) = validate_all (validate m r).0 l

  module _ (trader_id other : String) (different : (trader_id == other) ≡ false) where
    -- What is kept of the other trader.
    abbrev SameOther : RiskLimitsManager D → RiskLimitsManager D → Type 0
    SameOther m m' = find_text m'.traders other ≡ find_text m.traders other

    put_trader-SameOther :
        (m : RiskLimitsManager D) (t : TraderLimits D) → SameOther m (put_trader m trader_id t)
    unfolding put_trader
    put_trader-SameOther m t =
        find_text-assign_text m.traders trader_id t other
        ∙ ap (λ b. if b then some t else find_text m.traders other) different

    refuse-SameOther :
        (m : RiskLimitsManager D) (t : TraderLimits D) → SameOther m (refuse m trader_id t).0
    unfolding refuse count_violation
    refuse-SameOther m t = put_trader-SameOther m (block t)

    validate_instrument-SameOther :
        (m : RiskLimitsManager D) (t : TraderLimits D) (instrument_id : String)
        (exposure volatility : D)
        → SameOther m (validate_instrument m trader_id t instrument_id exposure volatility).0
    unfolding validate_instrument
    validate_instrument-SameOther m t instrument_id exposure volatility =
        let (t', limits) = get_instrument_limits t instrument_id in
        if-intro (λ (r : RiskLimitsManager D × Bool). SameOther m r.0)
          (not (check_exposure_limit limits exposure volatility)) (refuse-SameOther m t')
          (put_trader-SameOther m t')

    validate_trader-SameOther :
        (m : RiskLimitsManager D) (t : TraderLimits D) (strategy_id instrument_id : String)
        (exposure volatility : D)
        → SameOther m
            (validate_trader m trader_id t strategy_id instrument_id exposure volatility).0
    unfolding validate_trader count_violation
    validate_trader-SameOther m t strategy_id instrument_id exposure volatility =
        let P = λ (r : RiskLimitsManager D × Bool). SameOther m r.0 in
        if-intro P t.blocked refl (
          if-intro P (not (check_total_exposure t exposure volatility)) (refuse-SameOther m t) (
            if-intro P (not (strategy_allows (get_strategy_limits t strategy_id) volatility))
              (refuse-SameOther m t)
              (validate_instrument-SameOther m t instrument_id exposure volatility)))

    validate_trader_exposure-SameOther :
        (m : RiskLimitsManager D) (strategy_id instrument_id : String) (exposure volatility : D)
        → SameOther m
            (validate_trader_exposure m trader_id strategy_id instrument_id exposure volatility).0
    unfolding validate_trader_exposure get_or_create_trader
    validate_trader_exposure-SameOther m strategy_id instrument_id exposure volatility =
        elim (Option-cases (find_text m.traders trader_id)) [
          | inr (t, e) ↦
              simp (get_or_create_trader, e)
                (validate_trader-SameOther m t strategy_id instrument_id exposure volatility)
          | inl e ↦
              let made = new_trader trader_id in
              simp (get_or_create_trader, e)
                (validate_trader-SameOther (put_trader m trader_id made) made strategy_id
                    instrument_id exposure volatility
                  ∙ put_trader-SameOther m made)
        ]

  validate_blocked :
      (m : RiskLimitsManager D) (r : Request D) (trader_id : String)
      → is_blocked m trader_id ≡ true
      → is_blocked (validate m r).0 trader_id ≡ true
  unfolding validate
  validate_blocked m r trader_id h = elim (Bool-cases (r.trader_id == trader_id)) [
    | inr e ↦
        ap blocked_entry (
          validate_trader_exposure-SameOther r.trader_id trader_id e m r.strategy_id r.instrument_id
            r.exposure r.volatility)
        ∙ h
    | inl e ↦
        let same = (eq_iff r.trader_id trader_id).0 e in
        let h' = subst (λ n. is_blocked m n ≡ true) (sym same) h in
        let (answer, blocked, count) =
          validate_trader_exposure-Validates m r.trader_id r.strategy_id r.instrument_id r.exposure
            r.volatility in
        subst (λ n. is_blocked (validate m r).0 n ≡ true) same
          (blocked
            ∙ ap not (
                allows_blocked m r.trader_id r.strategy_id r.instrument_id r.exposure r.volatility
                  h'))
  ]

  -- A blocked trader stays blocked over any sequence of validations, of whatever traders, and each
  -- one of its own is refused.
  pub validate_all_blocked :
      (m : RiskLimitsManager D) (l : List (Request D)) (r : Request D)
      → is_blocked m r.trader_id ≡ true
      → (is_blocked (validate_all m l) r.trader_id ≡ true)
        × ((validate (validate_all m l) r).1 ≡ false)
  unfolding validate_all validate
  validate_all_blocked m [] r h = (
    h,
    (validate_trader_exposure-Validates m r.trader_id r.strategy_id r.instrument_id r.exposure
          r.volatility).0
        ∙ allows_blocked m r.trader_id r.strategy_id r.instrument_id r.exposure r.volatility h,
  )
  validate_all_blocked m (r' ∷ l) r h =
      validate_all_blocked (validate m r').0 l r (validate_blocked m r' r.trader_id h)

  -- A trader that the manager does not know is refused any positive exposure and blocked by its
  -- first validation, as its limits are 0 and a product with 0 is 0 or no number.
  pub unknown_trader_blocked :
      (m : RiskLimitsManager D) (r : Request D)
      → ((x y : D) → d.lt (d.of_ℕ 0) x ≡ true → d.le x (d.mul (d.of_ℕ 0) y) ≡ false)
      → find_text m.traders r.trader_id ≡ none
      → d.lt (d.of_ℕ 0) r.exposure ≡ true
      → ((validate m r).1 ≡ false) × (is_blocked (validate m r).0 r.trader_id ≡ true)
  unfolding validate
  unknown_trader_blocked m r product unknown positive =
      let (answer, blocked, count) =
        validate_trader_exposure-Validates m r.trader_id r.strategy_id r.instrument_id r.exposure
          r.volatility in
      let no =
        allows_unknown m r.trader_id r.strategy_id r.instrument_id r.exposure r.volatility unknown
          (product r.exposure _ positive) in
      (answer ∙ no, blocked ∙ ap not no)
