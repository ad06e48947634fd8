-- ===== src/VaRModel/Registry.antt =====
-- `VaRModelRegistry` (src/domain/VaRModel.h). A model that is shared by pointer is changed through its
-- entry.
use challenge_8a2ffd.Common.{
  ℕ, Bool, true, false, String, Option, none, some, List, [], ◌∷◌, length, if◌then◌else◌, inc64,
}
use challenge_8a2ffd.Common.Double.{Double}
use challenge_8a2ffd.Common.Int.{ℤ}
use challenge_8a2ffd.Common.TextMaps.{TextMap, find_text, assign_text}
use challenge_8a2ffd.VaRModel.{VaRModel, VaRResult, VaRCalibrationParams, Maths, new_model}
use challenge_8a2ffd.VaRModel.Operations.{calculate}

pub record VaRModelRegistry (D : Type 0) : Type 0 where
  pub models : TextMap (VaRModel D)
  pub total_calculations : ℕ

-- The sums of the loop over positions.
pub record PortfolioSums (D : Type 0) : Type 0 where
  pub total_var : D
  pub total_volatility : D
  pub all_valid : Bool

module _ {D : Type 0} ⦃d : Double D⦄ where
  abbrev pub new_registry : VaRModelRegistry D
  new_registry = record { models = []; total_calculations = 0 }

  abbrev pub or_created :
      String
      → VaRCalibrationParams D
      → Option (VaRModel D)
      → VaRModelRegistry D
      → VaRModelRegistry D × VaRModel D
  or_created instrument params none r = (
    record r { models = assign_text r.models instrument (new_model instrument params) },
    new_model instrument params,
  )
  or_created instrument params (some v) r = (r, v)

  unfoldable pub get_or_create_model :
      String → VaRCalibrationParams D → VaRModelRegistry D → VaRModelRegistry D × VaRModel D
  get_or_create_model instrument params r =
      or_created instrument params (find_text r.models instrument) r

  abbrev pub clear : VaRModelRegistry D → VaRModelRegistry D
  clear r = record r { models = [] }

  abbrev pub add_result : VaRResult D → PortfolioSums D → PortfolioSums D
  add_result result sums =
      if result.is_valid
      then record sums {
        total_var = d.add sums.total_var result.var_amount;
        total_volatility = d.add sums.total_volatility result.volatility;
      }
      else record sums { all_valid = false }

  module _ ⦃m : Maths D⦄ where
    abbrev pub add_found :
        String
        → D
        → D
        → ℤ
        → Option (VaRModel D)
        → TextMap (VaRModel D)
        → PortfolioSums D
        → TextMap (VaRModel D) × PortfolioSums D
    add_found instrument position price now none models sums =
        (models, record sums { all_valid = false })
    add_found instrument position price now (some v) models sums =
        if v.calibrated
        then (let (v', result) = calculate position price now v in
            (assign_text models instrument v', add_result result sums))
        else (models, record sums { all_valid = false })

    -- The loop over positions.
    unfoldable pub add_positions :
        List (String × D)
        → D
        → ℤ
        → TextMap (VaRModel D)
        → PortfolioSums D
        → TextMap (VaRModel D) × PortfolioSums D
    add_positions [] price now models sums = (models, sums)
    add_positions (entry ∷ positions) price now models sums =
        let (models', sums') =
          add_found entry.0 entry.1 price now (find_text models entry.0) models sums in
        add_positions positions price now models' sums'

    unfoldable pub calculate_portfolio_var :
        List (String × D) → D → ℤ → VaRModelRegistry D → VaRModelRegistry D × VaRResult D
    calculate_portfolio_var positions price now r =
        let (models, sums) =
          add_positions positions price now r.models
            (record { total_var = d.lit 0 1; total_volatility = d.lit 0 1; all_valid = true }) in
        (
          record r { models = models; total_calculations = inc64 r.total_calculations },
          record {
            var_amount = sums.total_var;
            confidence_level = d.lit 99 100;
            volatility = d.div sums.total_volatility (d.of_ℕ (length positions));
            expected_return = d.lit 0 1;
            calculation_time = now;
            is_valid = sums.all_valid;
          },
        )
