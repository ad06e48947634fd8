-- ===== src/RiskLimits.antt =====
-- The limits of traders, strategies and instruments, and their manager (src/domain/RiskLimits.h).
-- The manager shares its traders with its callers by pointer; a change that a caller makes through
-- one is a call of the trader's own function on the manager's entry.
pub mod Validation
pub mod Blocking
pub mod Tests
use text.Mathlib.Text.{◌==◌}
use challenge_8a2ffd.Common.{
  ℕ, suc, ◌+◌, ◌%◌, ◌^◌, ◌≡◌, Bool, true, false, not, ◌&&◌, Option, none, some, String, List, [],
  ◌∷◌, length, leb, if◌then◌else◌, inc64,
}
use challenge_8a2ffd.Common.Double.{Double}
use challenge_8a2ffd.Common.TextMaps.{TextMap, find_text, assign_text}

pub record RiskThreshold (D : Type 0) : Type 0 where
  pub max_exposure : D
  pub volatility_multiplier : D
  pub enabled : Bool

pub record InstrumentLimits (D : Type 0) : Type 0 where
  pub position_limit : RiskThreshold D
  pub daily_loss_limit : RiskThreshold D
  pub concentration_limit : RiskThreshold D
  pub current_position : ℕ
  pub current_exposure : D

pub record StrategyLimits (D : Type 0) : Type 0 where
  pub strategy_id : String
  pub var_limit : RiskThreshold D
  pub daily_pnl_limit : RiskThreshold D
  pub order_rate_limit : RiskThreshold D
  pub order_count : ℕ
  pub current_var : D
  pub daily_pnl : D
  pub window_start : ℕ

pub record TraderLimits (D : Type 0) : Type 0 where
  pub trader_id : String
  pub total_exposure_limit : RiskThreshold D
  pub margin_utilization_limit : RiskThreshold D
  pub strategy_limits : TextMap (StrategyLimits D)
  pub instrument_limits : TextMap (InstrumentLimits D)
  pub blocked : Bool
  pub violation_count : ℕ

pub record RiskLimitsManager (D : Type 0) : Type 0 where
  pub traders : TextMap (TraderLimits D)
  pub global_violation_count : ℕ

module _ {D : Type 0} ⦃d : Double D⦄ where
  abbrev pub default_threshold : RiskThreshold D
  default_threshold = record {
    max_exposure = d.of_ℕ 0;
    volatility_multiplier = d.of_ℕ 1;
    enabled = true;
  }

  unfoldable pub adjusted_limit : RiskThreshold D → D → D
  adjusted_limit t current_volatility =
      if t.enabled
      then d.mul t.max_exposure
          (d.add (d.of_ℕ 1) (d.mul t.volatility_multiplier current_volatility))
      else d.of_ℕ 0

  -- `std::abs`.
  abbrev pub double_abs : D → D
  double_abs x = if d.lt x (d.of_ℕ 0) then d.sub (d.of_ℕ 0) x else x

  abbrev pub default_instrument : InstrumentLimits D
  default_instrument = record {
    position_limit = default_threshold;
    daily_loss_limit = default_threshold;
    concentration_limit = default_threshold;
    current_position = 0;
    current_exposure = d.of_ℕ 0;
  }

  unfoldable pub check_position_limit : InstrumentLimits D → D → D → Bool
  check_position_limit l new_position volatility =
      d.le (double_abs new_position) (adjusted_limit l.position_limit volatility)

  unfoldable pub check_exposure_limit : InstrumentLimits D → D → D → Bool
  check_exposure_limit l exposure volatility =
      d.le exposure (adjusted_limit l.daily_loss_limit volatility)

  unfoldable pub check_concentration : InstrumentLimits D → D → D → D → Bool
  check_concentration l portfolio_exposure total_exposure volatility =
      if d.le total_exposure (d.of_ℕ 0)
      then true
      else d.le (d.div portfolio_exposure total_exposure)
          (adjusted_limit l.concentration_limit volatility)

  -- The constructor, with the clock.
  unfoldable pub new_strategy : String → ℕ → StrategyLimits D
  new_strategy id now = record {
    strategy_id = id;
    var_limit = default_threshold;
    daily_pnl_limit = default_threshold;
    order_rate_limit = default_threshold;
    order_count = 0;
    current_var = d.of_ℕ 0;
    daily_pnl = d.of_ℕ 0;
    window_start = now;
  }

  unfoldable pub check_var_limit : StrategyLimits D → D → D → Bool
  check_var_limit l var volatility = d.le var (adjusted_limit l.var_limit volatility)

  unfoldable pub check_pnl_limit : StrategyLimits D → D → D → Bool
  check_pnl_limit l pnl volatility =
      d.le (double_abs pnl) (adjusted_limit l.daily_pnl_limit volatility)

  -- `truncate` is the conversion to `uint64_t`.
  unfoldable pub check_order_rate : (D → ℕ) → StrategyLimits D → ℕ → D → Bool
  check_order_rate truncate l new_order_count volatility =
      leb new_order_count (truncate (adjusted_limit l.order_rate_limit volatility))

  unfoldable pub new_trader : String → TraderLimits D
  new_trader id = record {
    trader_id = id;
    total_exposure_limit = default_threshold;
    margin_utilization_limit = default_threshold;
    strategy_limits = [];
    instrument_limits = [];
    blocked = false;
    violation_count = 0;
  }

  unfoldable pub check_total_exposure : TraderLimits D → D → D → Bool
  check_total_exposure t total_exposure volatility =
      d.le total_exposure (adjusted_limit t.total_exposure_limit volatility)

  unfoldable pub add_strategy : TraderLimits D → String → ℕ → TraderLimits D
  add_strategy t strategy_id now = record t {
    strategy_limits = assign_text t.strategy_limits strategy_id (new_strategy strategy_id now);
  }

  -- `instrumentLimits[instrumentId]`, which makes the entry if there is none.
  unfoldable pub get_instrument_limits :
      TraderLimits D → String → TraderLimits D × InstrumentLimits D
  get_instrument_limits t instrument_id = elim (find_text t.instrument_limits instrument_id) [
    | some l ↦ (t, l)
    | none ↦ (
      record t {
        instrument_limits = assign_text t.instrument_limits instrument_id default_instrument;
      },
      default_instrument,
    )
  ]

module _ {D : Type 0} where
  unfoldable pub reset_window : StrategyLimits D → ℕ → StrategyLimits D
  reset_window l now = record l { window_start = now; order_count = 0 }

  unfoldable pub block : TraderLimits D → TraderLimits D
  block t = record t { blocked = true; violation_count = inc64 t.violation_count }

  unfoldable pub unblock : TraderLimits D → TraderLimits D
  unblock t = record t { blocked = false }

  unfoldable pub get_strategy_limits : TraderLimits D → String → Option (StrategyLimits D)
  get_strategy_limits t strategy_id = find_text t.strategy_limits strategy_id

  -- The entry that a caller holds changes.
  unfoldable pub put_trader : RiskLimitsManager D → String → TraderLimits D → RiskLimitsManager D
  put_trader m trader_id trader = record m { traders = assign_text m.traders trader_id trader }

  unfoldable pub count_violation : RiskLimitsManager D → RiskLimitsManager D
  count_violation m = record m { global_violation_count = inc64 m.global_violation_count }

  unfoldable pub trader_count : RiskLimitsManager D → ℕ
  trader_count m = length m.traders

  abbrev pub reset_traders : TextMap (TraderLimits D) → TextMap (TraderLimits D)
  reset_traders [] = []
  reset_traders (e ∷ m) =
      (e.0, (record e.1 { violation_count = 0; blocked = false })) ∷ reset_traders m

  unfoldable pub reset_violations : RiskLimitsManager D → RiskLimitsManager D
  reset_violations m = record m { global_violation_count = 0; traders = reset_traders m.traders }

  -- `trader->block()`, the count, and `return false`.
  unfoldable pub refuse : RiskLimitsManager D → String → TraderLimits D → RiskLimitsManager D × Bool
  refuse m trader_id trader = (count_violation (put_trader m trader_id (block trader)), false)

  module _ ⦃d : Double D⦄ where
    unfoldable pub get_or_create_trader :
        RiskLimitsManager D → String → RiskLimitsManager D × TraderLimits D
    get_or_create_trader m trader_id = elim (find_text m.traders trader_id) [
      | some t ↦ (m, t)
      | none ↦ (put_trader m trader_id (new_trader trader_id), new_trader trader_id)
    ]

    -- Whether the strategy's value at risk, if the trader has the strategy, is within its limit.
    abbrev pub strategy_allows : Option (StrategyLimits D) → D → Bool
    strategy_allows none volatility = true
    strategy_allows (some l) volatility = check_var_limit l l.current_var volatility

    -- The last check, with the instrument's entry made if there was none.
    unfoldable pub validate_instrument :
        RiskLimitsManager D → String → TraderLimits D → String → D → D → RiskLimitsManager D × Bool
    validate_instrument m trader_id trader instrument_id exposure volatility =
        let (trader, limits) = get_instrument_limits trader instrument_id in
        if not (check_exposure_limit limits exposure volatility)
        then refuse m trader_id trader
        else (put_trader m trader_id trader, true)

    -- All checks, on the trader that was found or made.
    unfoldable pub validate_trader :
        RiskLimitsManager D
        → String
        → TraderLimits D
        → String
        → String
        → D
        → D
        → RiskLimitsManager D × Bool
    validate_trader m trader_id trader strategy_id instrument_id exposure volatility =
        if trader.blocked
        then (count_violation m, false)
        else if not (check_total_exposure trader exposure volatility)
        then refuse m trader_id trader
        else if not (strategy_allows (get_strategy_limits trader strategy_id) volatility)
        then refuse m trader_id trader
        else validate_instrument m trader_id trader instrument_id exposure volatility

    unfoldable pub validate_trader_exposure :
        RiskLimitsManager D → String → String → String → D → D → RiskLimitsManager D × Bool
    validate_trader_exposure m trader_id strategy_id instrument_id exposure volatility =
        let (m, trader) = get_or_create_trader m trader_id in
        validate_trader m trader_id trader strategy_id instrument_id exposure volatility
