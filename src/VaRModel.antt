-- ===== src/VaRModel.antt =====
-- `VaRModel` (src/domain/VaRModel.h): the returns of an instrument's prices, their volatility and the
-- value at risk. `std::log`, `std::sqrt` and `std::pow` are parameters, and times are nanoseconds of
-- the steady clock.
pub mod Operations
pub mod Registry
pub mod Portfolio
pub mod Window
pub mod Volatility
pub mod Reachable
pub mod Tests
use challenge_8a2ffd.Common.{
  ℕ, zero, suc, ◌+◌, ◌-◌, ◌%◌, ◌^◌, ◌≤◌, ◌<◌, Bool, true, false, not, ◌&&◌, ◌||◌, String, Option,
  none, some, List, [], ◌∷◌, ◌++◌, length, get_elem?, set, replicate, ltb, leb, if◌then◌else◌,
  inc64,
}
use challenge_8a2ffd.Common.Double.{Double}
use challenge_8a2ffd.Common.Int.{ℤ, pos, negsuc, ◌-ℤ◌, ◌/ℤ◌}

-- `MAX_OBSERVATIONS`.
abbrev pub max_observations : ℕ
max_observations = 1000

pub record Maths (D : Type 0) : Type 0 where
  pub log : D → D
  pub sqrt : D → D
  pub pow : D → D → D

pub record VaRCalibrationParams (D : Type 0) : Type 0 where
  pub confidence_level : D
  pub lookback_days : ℤ
  pub decay_factor : D
  pub use_intraday_scaling : Bool
  pub intraday_scaling_factor : D

pub record PriceObservation (D : Type 0) : Type 0 where
  pub price : D
  pub timestamp : ℤ
  pub volume : D

pub record VaRResult (D : Type 0) : Type 0 where
  pub var_amount : D
  pub confidence_level : D
  pub volatility : D
  pub expected_return : D
  pub calculation_time : ℤ
  pub is_valid : Bool

pub record VaRModel (D : Type 0) : Type 0 where
  pub instrument_id : String
  pub params : VaRCalibrationParams D
  pub price_history : List (PriceObservation D)
  pub returns_buffer : List D
  pub observation_count : ℕ
  pub current_volatility : D
  pub current_var : D
  pub calibrated : Bool
  pub last_update : ℤ
  pub calculation_count : ℕ
  pub lambda : D
  pub risk_factor : D

-- A price that is the last of the history.
abbrev pub last_price : {D : Type 0} → D → List (PriceObservation D) → D
last_price price [] = price
last_price price (obs ∷ history) = last_price obs.price history

-- `push_back`, and `erase(begin())` where there are too many.
abbrev pub tail_of : {D : Type 0} → List (PriceObservation D) → List (PriceObservation D)
tail_of [] = []
tail_of (obs ∷ history) = history

unfoldable pub push_observation :
    {D : Type 0} → List (PriceObservation D) → PriceObservation D → List (PriceObservation D)
push_observation history obs =
    let pushed = history ++ (obs ∷ []) in
    if ltb max_observations (length pushed) then tail_of pushed else pushed

-- `static_cast<size_t>` of an `int`.
abbrev pub as_size : ℤ → ℕ
as_size (pos n) = n
as_size (negsuc n) = 2 ^ 64 - suc n

abbrev pub min_size : ℕ → ℕ → ℕ
min_size m n = if ltb n m then n else m

-- The first return that the loop reads.
abbrev pub start_index : ℕ → ℕ
start_index count = if ltb max_observations count then count % max_observations else 0

module _ {D : Type 0} ⦃d : Double D⦄ where
  abbrev pub min_volatility : D
  min_volatility = d.lit 1 10000

  abbrev pub max_volatility : D
  max_volatility = d.lit 5 1

  abbrev pub default_params : VaRCalibrationParams D
  default_params = record {
    confidence_level = d.lit 99 100;
    lookback_days = pos 250;
    decay_factor = d.lit 94 100;
    use_intraday_scaling = true;
    intraday_scaling_factor = d.lit 15 10;
  }

  -- `std::clamp`.
  abbrev pub clamp : D → D → D → D
  clamp x low high = if d.lt x low then low else if d.lt high x then high else x

  unfoldable pub calculate_risk_factor : D → D
  calculate_risk_factor level =
      if d.le (d.lit 999 1000) level
      then d.lit 3719 1000
      else if d.le (d.lit 99 100) level
      then d.lit 2326 1000
      else if d.le (d.lit 975 1000) level
      then d.lit 196 100
      else if d.le (d.lit 95 100) level
      then d.lit 1645 1000
      else d.lit 1645 1000

  unfoldable pub new_model : String → VaRCalibrationParams D → VaRModel D
  new_model instrument params = record {
    instrument_id = instrument;
    params = params;
    price_history = [];
    returns_buffer = replicate max_observations (d.lit 0 1);
    observation_count = 0;
    current_volatility = d.lit 0 1;
    current_var = d.lit 0 1;
    calibrated = false;
    last_update = pos 0;
    calculation_count = 0;
    lambda = params.decay_factor;
    risk_factor = calculate_risk_factor params.confidence_level;
  }

  -- `returnsBuffer_[idx]`, for an index inside the array.
  abbrev pub or_zero : Option D → D
  or_zero none = d.lit 0 1
  or_zero (some r) = r

  abbrev pub return_at : List D → ℕ → D
  return_at buffer i = or_zero (get_elem? buffer i)

-- The sums of the loop over returns.
pub record Weights (D : Type 0) : Type 0 where
  pub weighted_sum : D
  pub weight_sum : D
  pub weight : D

module _ {D : Type 0} ⦃d : Double D⦄ where
  -- The body of the loop.
  unfoldable pub add_return : D → D → Weights D → Weights D
  add_return lambda r w = record {
    weighted_sum = d.add w.weighted_sum (d.mul (d.mul w.weight r) r);
    weight_sum = d.add w.weight_sum w.weight;
    weight = d.mul w.weight lambda;
  }

  -- `iterations` turns from turn `i` on.
  unfoldable pub weigh : D → List D → ℕ → ℕ → ℕ → Weights D → Weights D
  weigh lambda buffer start zero i w = w
  weigh lambda buffer start (suc iterations) i w =
      weigh lambda buffer start iterations (suc i)
        (add_return lambda (return_at buffer ((start + i) % max_observations)) w)

  abbrev pub no_weights : Weights D
  no_weights = record { weighted_sum = d.lit 0 1; weight_sum = d.lit 0 1; weight = d.lit 1 1 }

  -- What follows the loop.
  unfoldable pub volatility_of : ⦃m : Maths D⦄ → Weights D → D
  volatility_of ⦃m⦄ w =
      if d.le w.weight_sum (d.lit 0 1)
      then min_volatility
      else clamp (m.sqrt (d.div w.weighted_sum w.weight_sum)) min_volatility max_volatility
