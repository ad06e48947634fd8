-- ===== src/VaRModel/Portfolio.antt =====
-- When the value at risk of a portfolio is valid (src/domain/VaRModel.h).
use mathlib.Core.Path.{subst}
use mathlib.Core.Bool.{not, ◌||◌, and_assoc}
use text.Mathlib.Text.{◌==◌}
use text.Mathlib.TextEquality.{eq_iff}
use challenge_8a2ffd.Common.{
  suc, ◌^◌, ◌<◌, ◌≡◌, refl, sym, ap, ◌∙◌, Bool, true, false, ◌&&◌, String, Option, none, some, List,
  [], ◌∷◌, length, if-cases, if-intro, Bool-cases, inl, inr,
}
use challenge_8a2ffd.Common.Double.{Double, IsOrdered}
use challenge_8a2ffd.Common.Int.{ℤ}
use challenge_8a2ffd.Common.TextMaps.{TextMap, find_text, assign_text, find_text-assign_text}
use challenge_8a2ffd.VaRModel.{VaRModel, VaRResult, Maths, min_volatility, max_volatility}
use challenge_8a2ffd.VaRModel.Operations.{calculate}
use challenge_8a2ffd.VaRModel.Reachable.{Reaches, calculated}
use challenge_8a2ffd.VaRModel.Registry.{
  VaRModelRegistry, PortfolioSums, add_result, add_found, add_positions, calculate_portfolio_var,
}
use challenge_8a2ffd.VaRModel.Volatility.{calculate-valid}

&&_true : (x : Bool) → x ≡ x && true
&&_true true = refl
&&_true false = refl

&&_false : (x : Bool) → false ≡ x && false
&&_false true = refl
&&_false false = refl

module _ {D : Type 0} where
  abbrev pub has_calibrated : Option (VaRModel D) → Bool
  has_calibrated none = false
  has_calibrated (some v) = v.calibrated

  -- Each position has a calibrated model.
  abbrev pub all_calibrated : TextMap (VaRModel D) → List (String × D) → Bool
  all_calibrated models [] = true
  all_calibrated models (entry ∷ positions) =
      has_calibrated (find_text models entry.0) && all_calibrated models positions

module _ {D : Type 0} ⦃d : Double D⦄ ⦃m : Maths D⦄ where
  -- A model as a sequence of calls leaves it, and all models of a registry.
  abbrev pub IsRecorded : VaRModel D → Type 0
  IsRecorded v = (returns : List D) × Reaches returns v × (suc (length returns) < 2 ^ 64)

  abbrev pub AllRecorded : TextMap (VaRModel D) → Type 0
  AllRecorded models =
      (name : String) (v : VaRModel D) → find_text models name ≡ some v → IsRecorded v

  -- What a position leaves.
  record IsAdded (models : TextMap (VaRModel D)) (sums : PortfolioSums D) (here : Bool)
      (models' : TextMap (VaRModel D)) (sums' : PortfolioSums D) : Type 0 where
    kept : (n : String) → has_calibrated (find_text models' n) ≡ has_calibrated (find_text models n)
    recorded : AllRecorded models'
    valid : sums'.all_valid ≡ sums.all_valid && here

  calculate-calibrated :
      (position price : D) (now : ℤ) (v : VaRModel D)
      → (calculate position price now v).0.calibrated ≡ v.calibrated
  unfolding calculate
  calculate-calibrated position price now v =
      if-intro {A = VaRModel D × VaRResult D} (λ r. r.0.calibrated ≡ v.calibrated)
        (not v.calibrated || d.lt v.current_volatility min_volatility) refl refl

  add_result-valid :
      (result : VaRResult D) (sums : PortfolioSums D)
      → (add_result result sums).all_valid ≡ sums.all_valid && result.is_valid
  add_result-valid result sums = elim (Bool-cases result.is_valid) [
    | inl t ↦ simp t (&&_true sums.all_valid)
    | inr t ↦ simp t (&&_false sums.all_valid)
  ]

  -- The predicate of a model that is there.
  abbrev Recorded : Option (VaRModel D) → Type 0
  Recorded none = Unit
  Recorded (some v) = IsRecorded v

  pub assign_text-AllRecorded :
      (models : TextMap (VaRModel D)) (name : String) (v : VaRModel D)
      → AllRecorded models
      → IsRecorded v
      → AllRecorded (assign_text models name v)
  assign_text-AllRecorded models name v all r n w f =
      if-cases (λ o. o ≡ some w → IsRecorded w) (name == n) (λ _ g. subst Recorded g r)
        (λ _ g. all n w g) (sym (find_text-assign_text models name v n) ∙ f)

  assign_text-calibrated :
      (models : TextMap (VaRModel D)) (name : String) (v v' : VaRModel D)
      → find_text models name ≡ some v
      → v'.calibrated ≡ v.calibrated
      → (n : String)
      → has_calibrated (find_text (assign_text models name v') n)
        ≡ has_calibrated (find_text models n)
  assign_text-calibrated models name v v' e same n =
      ap has_calibrated (find_text-assign_text models name v' n)
      ∙ if-cases (λ o. has_calibrated o ≡ has_calibrated (find_text models n)) (name == n)
          (λ t.
            let here : find_text models n ≡ some v =
              ap (find_text models) (sym ((eq_iff name n).0 t)) ∙ e in
            same ∙ sym (ap has_calibrated here))
          λ _. refl

  module _ (o : IsOrdered D) (between : d.lt min_volatility max_volatility ≡ true) where
    add_calculated-IsAdded :
        (models : TextMap (VaRModel D)) (sums : PortfolioSums D) (name : String)
        (position price : D) (now : ℤ) (v : VaRModel D)
        → AllRecorded models
        → find_text models name ≡ some v
        → IsAdded models sums v.calibrated
            (assign_text models name (calculate position price now v).0)
            (add_result (calculate position price now v).1 sums)
    add_calculated-IsAdded models sums name position price now v all e =
        let (returns, r, small) = all name v e in
        record {
          kept =
              assign_text-calibrated models name v (calculate position price now v).0 e
                (calculate-calibrated position price now v);
          recorded =
              assign_text-AllRecorded models name (calculate position price now v).0 all
                (returns, calculated r position price now, small);
          valid =
              add_result-valid (calculate position price now v).1 sums
              ∙ ap (λ b. sums.all_valid && b)
                  (calculate-valid o between r small position price now);
        }

    add_found-IsAdded :
        (models : TextMap (VaRModel D)) (sums : PortfolioSums D) (name : String)
        (position price : D) (now : ℤ) (found : Option (VaRModel D))
        → AllRecorded models
        → find_text models name ≡ found
        → let added = add_found name position price now found models sums in
          IsAdded models sums (has_calibrated found) added.0 added.1
    add_found-IsAdded models sums name position price now none all e = record {
      kept = λ n. refl;
      recorded = all;
      valid = &&_false sums.all_valid;
    }
    add_found-IsAdded models sums name position price now (some v) all e =
        if-cases {A = TextMap (VaRModel D) × PortfolioSums D}
          (λ r. IsAdded models sums v.calibrated r.0 r.1) v.calibrated
          (λ _. add_calculated-IsAdded models sums name position price now v all e)
          λ t. record {
            kept = λ n. refl;
            recorded = all;
            valid = &&_false sums.all_valid ∙ ap (λ b. sums.all_valid && b) (sym t);
          }

    all_calibrated-kept :
        (models models' : TextMap (VaRModel D))
        → ((n : String)
            → has_calibrated (find_text models' n) ≡ has_calibrated (find_text models n))
        → (positions : List (String × D))
        → all_calibrated models' positions ≡ all_calibrated models positions
    all_calibrated-kept models models' kept [] = refl
    all_calibrated-kept models models' kept (entry ∷ positions) =
        rw (kept entry.0, all_calibrated-kept models models' kept positions) refl

    add_positions-valid :
        (positions : List (String × D)) (price : D) (now : ℤ) (models : TextMap (VaRModel D))
        (sums : PortfolioSums D)
        → AllRecorded models
        → (add_positions positions price now models sums).1.all_valid
          ≡ sums.all_valid && all_calibrated models positions
    unfolding add_positions
    add_positions-valid [] price now models sums all = &&_true sums.all_valid
    add_positions-valid (entry ∷ positions) price now models sums all =
        let found = find_text models entry.0 in
        let added = add_found entry.0 entry.1 price now found models sums in
        let here = add_found-IsAdded models sums entry.0 entry.1 price now found all refl in
        add_positions-valid positions price now added.0 added.1 here.recorded
        ∙ ap (λ b. b && all_calibrated added.0 positions) here.valid
        ∙ and_assoc sums.all_valid (has_calibrated found) (all_calibrated added.0 positions)
        ∙ ap (λ b. sums.all_valid && (has_calibrated found && b))
            (all_calibrated-kept models added.0 here.kept positions)

    -- The value at risk of a portfolio is valid exactly if each position has a calibrated model in the
    -- registry. The models are as sequences of calls leave them, with fewer than 2 ^ 64 - 1 returns
    -- each; doubles are ordered, and 0.0001 is below 5.
    pub calculate_portfolio_var-valid :
        (positions : List (String × D)) (price : D) (now : ℤ) (r : VaRModelRegistry D)
        → AllRecorded r.models
        → (calculate_portfolio_var positions price now r).1.is_valid
          ≡ all_calibrated r.models positions
    unfolding calculate_portfolio_var
    calculate_portfolio_var-valid positions price now r all =
        add_positions-valid positions price now r.models
          (record { total_var = d.lit 0 1; total_volatility = d.lit 0 1; all_valid = true }) all
