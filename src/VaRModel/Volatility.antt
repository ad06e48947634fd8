-- ===== src/VaRModel/Volatility.antt =====
-- When the value at risk is valid, and the limits of the volatility (src/domain/VaRModel.h).
use mathlib.Core.Path.{subst}
use challenge_8a2ffd.Common.{
  suc, ◌^◌, ◌<◌, ◌≡◌, refl, sym, true, false, List, length, ltb, if-cases, if-intro, Bool-cases,
  inl, inr,
}
use challenge_8a2ffd.Common.Double.{Double, IsOrdered}
use challenge_8a2ffd.Common.Int.{ℤ}
use challenge_8a2ffd.VaRModel.{
  VaRModel, Maths, Weights, min_volatility, max_volatility, clamp, volatility_of, no_weights,
}
use challenge_8a2ffd.VaRModel.Operations.{calculate}
use challenge_8a2ffd.VaRModel.Window.{recent, weigh_list, reference_volatility}
use challenge_8a2ffd.VaRModel.Reachable.{Reaches, Reaches-volatility}

module _ {D : Type 0} ⦃d : Double D⦄ where
  -- Neither below the least volatility nor above the greatest; a value that is no number is neither.
  abbrev pub IsLimited : D → Type 0
  IsLimited x = (d.lt x min_volatility ≡ false) × (d.lt max_volatility x ≡ false)

  module _ (o : IsOrdered D) (between : d.lt min_volatility max_volatility ≡ true) where
    min_volatility-IsLimited : IsLimited min_volatility
    min_volatility-IsLimited =
        (o.lt_irrefl min_volatility, o.lt_asymm min_volatility max_volatility between)

    clamp-IsLimited : (x : D) → IsLimited (clamp x min_volatility max_volatility)
    clamp-IsLimited x =
        if-cases IsLimited (d.lt x min_volatility) (λ _. min_volatility-IsLimited)
          λ above.
            if-cases IsLimited (d.lt max_volatility x)
              (λ _. (o.lt_asymm min_volatility max_volatility between, o.lt_irrefl max_volatility))
              λ below. (above, below)

    module _ ⦃m : Maths D⦄ where
      volatility_of-IsLimited : (w : Weights D) → IsLimited (volatility_of w)
      unfolding volatility_of
      volatility_of-IsLimited w =
          if-intro IsLimited (d.le w.weight_sum (d.lit 0 1)) min_volatility-IsLimited
            (clamp-IsLimited (m.sqrt (d.div w.weighted_sum w.weight_sum)))

      reference_volatility-IsLimited :
          (lambda : D) (returns : List D) → IsLimited (reference_volatility lambda returns)
      reference_volatility-IsLimited lambda returns =
          if-intro IsLimited (ltb (length returns) 2) min_volatility-IsLimited
            (volatility_of-IsLimited (weigh_list lambda (recent returns) no_weights))

      calibrated-IsLimited :
          {returns : List D} {v : VaRModel D}
          → Reaches returns v
          → suc (length returns) < 2 ^ 64
          → v.calibrated ≡ true
          → IsLimited v.current_volatility
      calibrated-IsLimited {returns} {v} r small e =
          subst IsLimited (sym (Reaches-volatility r small e).0)
            (reference_volatility-IsLimited v.lambda returns)

  -- After any sequence of calls the result of a calculation is valid exactly if the model is
  -- calibrated: the test for a volatility that is too small never decides. Fewer than 2 ^ 64 - 1
  -- returns were given, doubles are ordered, and 0.0001 is below 5.
  pub calculate-valid :
      ⦃m : Maths D⦄
      → IsOrdered D
      → d.lt min_volatility max_volatility ≡ true
      → {returns : List D} {v : VaRModel D} → Reaches returns v
      → suc (length returns) < 2 ^ 64
      → (position price : D) (now : ℤ) → (calculate position price now v).1.is_valid ≡ v.calibrated
  unfolding calculate
  calculate-valid o between {returns} {v} r small position price now =
      elim (Bool-cases v.calibrated) [
        | inr t ↦ simp t refl
        | inl t ↦ simp (t, (calibrated-IsLimited o between r small t).0) refl
      ]
