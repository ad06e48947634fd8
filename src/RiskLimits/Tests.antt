-- ===== src/RiskLimits/Tests.antt =====
-- Validations of concrete exposures, in fixed-point arithmetic.
use challenge_8a2ffd.Common.{◌≡◌, refl, true, false, none, [], ◌∷◌, arith}
use challenge_8a2ffd.Common.Int.{pos, negsuc, ◌*ℤ◌, ◌/ℤ◌}
use challenge_8a2ffd.Common.Fixed.{Fixed, fixed_double}
use challenge_8a2ffd.Common.TextMaps.{find_text}
use challenge_8a2ffd.RiskLimits.{
  RiskLimitsManager, TraderLimits, default_threshold, validate_trader_exposure,
}
use challenge_8a2ffd.RiskLimits.Validation.{
  Validates, allows, is_blocked, validate_trader_exposure-Validates,
}
use challenge_8a2ffd.RiskLimits.Blocking.{
  Request, validate, validate_all, validate_all_blocked, unknown_trader_blocked,
}

-- A trader with a limit of 100, and one that is blocked.
abbrev ann : TraderLimits Fixed
ann = record {
  trader_id = "ann";
  total_exposure_limit = record {
    max_exposure = pos 100000000;
    volatility_multiplier = pos 1000000;
    enabled = true;
  };
  margin_utilization_limit = default_threshold;
  strategy_limits = [];
  instrument_limits = [];
  blocked = false;
  violation_count = 0;
}

abbrev bob : TraderLimits Fixed
bob = record ann { trader_id = "bob"; blocked = true }

abbrev desk : RiskLimitsManager Fixed
desk = record { traders = ("ann", ann) ∷ ("bob", bob) ∷ []; global_violation_count = 4 }

abbrev asks : Request Fixed
asks = record {
  trader_id = "bob";
  strategy_id = "alpha";
  instrument_id = "AAPL";
  exposure = pos 5000000;
  volatility = pos 0;
}

validate_trader_exposure-Validates_example :
    Validates desk "ann"
      (allows desk "ann" "alpha" "AAPL" (pos 5000000) (pos 0))
      (validate_trader_exposure desk "ann" "alpha" "AAPL" (pos 5000000) (pos 0))
validate_trader_exposure-Validates_example =
    validate_trader_exposure-Validates desk "ann" "alpha" "AAPL" (pos 5000000) (pos 0)

bob_blocked : is_blocked desk "bob" ≡ true
unfolding find_text
bob_blocked = refl

validate_all_blocked_example :
    (is_blocked (validate_all desk (record asks { trader_id = "ann" } ∷ asks ∷ [])) "bob" ≡ true)
    × ((validate (validate_all desk (record asks { trader_id = "ann" } ∷ asks ∷ [])) asks).1
        ≡ false)
validate_all_blocked_example =
    validate_all_blocked desk (record asks { trader_id = "ann" } ∷ asks ∷ []) asks bob_blocked

abbrev stranger : Request Fixed
stranger = record asks { trader_id = "eve" }

unknown : find_text desk.traders "eve" ≡ none
unfolding find_text
unknown = refl

fixed_product :
    (x y : Fixed)
    → fixed_double.lt (pos 0) x ≡ true
    → fixed_double.le x (fixed_double.mul (pos 0) y) ≡ false
unfolding ◌*ℤ◌ ◌/ℤ◌
fixed_product x (pos n) h = ground arith
fixed_product x (negsuc n) h = ground arith

unknown_trader_blocked_example :
    ((validate desk stranger).1 ≡ false) × (is_blocked (validate desk stranger).0 "eve" ≡ true)
unknown_trader_blocked_example = unknown_trader_blocked desk stranger fixed_product unknown refl
