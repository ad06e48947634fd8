-- ===== src/Common/Maps.antt =====
-- `std::map` with unsigned keys: a list of entries in the order of their keys.
pub mod Order
use challenge_8a2ffd.Common.Tests.{ltb, ◌==◌, if◌then◌else◌}
use Prim.Native.Nat.{ℕ}
use mathlib.Core.Option.{Option, none, some}
use mathlib.Core.List.{List, [], ◌∷◌}

abbrev pub Entries {ℓ} : Type ℓ → Type ℓ
Entries V = List (ℕ × V)

module _ {ℓ} {V : Type ℓ} where
  -- `m[key] = value`.
  unfoldable pub insert_or_assign : Entries V → ℕ → V → Entries V
  insert_or_assign [] key value = (key, value) ∷ []
  insert_or_assign (e ∷ m) key value =
      let rest = insert_or_assign m key value in
      if ltb key e.0
      then (key, value) ∷ e ∷ m
      else if key == e.0
      then (key, value) ∷ m
      else e ∷ rest

  unfoldable pub find : Entries V → ℕ → Option V
  find [] key = none
  find (e ∷ m) key = if e.0 == key then some e.1 else find m key

  -- The first entry whose key is not below the one given.
  unfoldable pub lower_bound : Entries V → ℕ → Option (ℕ × V)
  lower_bound [] key = none
  lower_bound (e ∷ m) key = if ltb e.0 key then lower_bound m key else some e

  unfoldable pub first : Entries V → Option (ℕ × V)
  first [] = none
  first (e ∷ m) = some e
