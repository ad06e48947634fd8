-- ===== src/VaRModel/Tests.antt =====
-- A model on concrete prices, with fixed-point numbers in which the logarithm of x is x - 1.
use challenge_8a2ffd.Common.{ℕ, ◌≤◌, ◌≡◌, refl, true, String, List, [], ◌∷◌, arith, length}
use challenge_8a2ffd.Common.Fixed.{Fixed, fixed_double, Fixed-IsOrdered}
use challenge_8a2ffd.Common.Int.{pos, ◌-ℤ◌, ◌*ℤ◌, ◌/ℤ◌}
use challenge_8a2ffd.VaRModel.{VaRModel, Maths, PriceObservation, default_params, new_model}
use challenge_8a2ffd.VaRModel.Operations.{add_observation, add_return_to}
use challenge_8a2ffd.VaRModel.Window.{reference_volatility}
use challenge_8a2ffd.VaRModel.Reachable.{Reaches, created, observed, Reaches-volatility}
use challenge_8a2ffd.Common.TextMaps.{find_text, assign_text}
use challenge_8a2ffd.VaRModel.Registry.{VaRModelRegistry, new_registry, calculate_portfolio_var}
use challenge_8a2ffd.VaRModel.Portfolio.{
  all_calibrated, AllRecorded, assign_text-AllRecorded, calculate_portfolio_var-valid,
}

instance fixed_maths : Maths Fixed
fixed_maths = record { log = λ x. x -ℤ pos 1000000; sqrt = λ x. x; pow = λ x y. x }

abbrev new_one : VaRModel Fixed
new_one = new_model "AAPL" default_params

abbrev price_at : ℕ → PriceObservation Fixed
price_at price = record { price = pos price; timestamp = pos 0; volume = pos 0 }

abbrev two_prices : VaRModel Fixed
two_prices =
    add_observation (price_at 110000000) (pos 2)
      (add_observation (price_at 100000000) (pos 1) new_one)

-- The price rises by a tenth.
abbrev one_return : List Fixed
one_return = pos 100000 ∷ []

two_prices_reached : Reaches one_return two_prices
unfolding new_model add_observation fixed_maths ◌-ℤ◌ ◌*ℤ◌ ◌/ℤ◌
two_prices_reached =
    observed (observed (created "AAPL" default_params) (price_at 100000000) (pos 1))
      (price_at 110000000) (pos 2)

Reaches-volatility_example :
    (two_prices.current_volatility ≡ reference_volatility two_prices.lambda one_return)
    × (length two_prices.price_history ≤ 1000)
unfolding new_model add_observation add_return_to fixed_maths ◌-ℤ◌ ◌*ℤ◌ ◌/ℤ◌
Reaches-volatility_example = Reaches-volatility two_prices_reached (omega arith) refl

-- A registry with this model.
abbrev apple_registry : VaRModelRegistry Fixed
apple_registry = record new_registry { models = assign_text [] "AAPL" two_prices }

apple_registry-AllRecorded : AllRecorded apple_registry.models
unfolding find_text
apple_registry-AllRecorded =
    assign_text-AllRecorded [] "AAPL" two_prices (λ n v e. absurd cc)
      (one_return, two_prices_reached, omega arith)

abbrev held : List (String × Fixed)
held = ("AAPL", pos 5000000) ∷ []

calculate_portfolio_var-valid_example :
    (calculate_portfolio_var held (pos 110000000) (pos 3) apple_registry).1.is_valid
    ≡ all_calibrated apple_registry.models held
calculate_portfolio_var-valid_example =
    calculate_portfolio_var-valid Fixed-IsOrdered refl held (pos 110000000) (pos 3) apple_registry
      apple_registry-AllRecorded

-- The model is found and is calibrated.
held_calibrated : all_calibrated apple_registry.models held ≡ true
unfolding find_text assign_text new_model add_observation add_return_to fixed_maths ◌-ℤ◌ ◌*ℤ◌ ◌/ℤ◌
held_calibrated = refl
