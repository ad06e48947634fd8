-- ===== src/Common/TextMaps.antt =====
-- `std::unordered_map` with strings for keys: a list of entries, each key once.
use text.Mathlib.Text.{◌==◌}
use text.Mathlib.TextEquality.{eq_iff}
use challenge_8a2ffd.Common.Tests.{if◌then◌else◌, Bool-cases}
use Prim.Native.String.{String}
use mathlib.Core.Path.{◌≡◌, refl, sym, ap, ◌∙◌}
use mathlib.Core.Logic.{inl, inr}
use mathlib.Core.Option.{Option, none, some}
use mathlib.Core.List.{List, [], ◌∷◌}

abbrev pub TextMap {ℓ} : Type ℓ → Type ℓ
TextMap V = List (String × V)

module _ {ℓ} {V : Type ℓ} where
  unfoldable pub find_text : TextMap V → String → Option V
  find_text [] key = none
  find_text (e ∷ m) key = if e.0 == key then some e.1 else find_text m key

  -- `m[key] = value`.
  unfoldable pub assign_text : TextMap V → String → V → TextMap V
  assign_text [] key value = (key, value) ∷ []
  assign_text (e ∷ m) key value =
      let rest = assign_text m key value in if e.0 == key then (e.0, value) ∷ m else e ∷ rest

  -- A lookup after an assignment.
  pub find_text-assign_text :
      (m : TextMap V) (key : String) (value : V) (n : String)
      → find_text (assign_text m key value) n ≡ (if key == n then some value else find_text m n)
  unfolding find_text assign_text
  find_text-assign_text [] key value n = refl
  find_text-assign_text (e ∷ m) key value n =
      let rest = find_text-assign_text m key value n in
      elim (Bool-cases (e.0 == key)) [
        | inl t ↦
            let same : e.0 ≡ key = (eq_iff e.0 key).0 t in
            let as_key : (e.0 == n) ≡ (key == n) = ap (λ s. s == n) same in
            elim (Bool-cases (key == n)) [
              | inl u ↦ rw t (rw (as_key ∙ u, u) refl)
              | inr u ↦ rw t (rw (as_key ∙ u, u) refl)
            ]
        | inr t ↦ elim (Bool-cases (e.0 == n)) [
          | inl t' ↦ elim (Bool-cases (key == n)) [
            | inl t'' ↦
                let same : e.0 ≡ key = (eq_iff e.0 n).0 t' ∙ sym ((eq_iff key n).0 t'') in
                let again = (eq_iff e.0 key).1 same in absurd cc
            | inr t'' ↦ rw (t, t'') (rw t' refl)
          ]
          | inr t' ↦ rw t (rw t' rest)
        ]
      ]
