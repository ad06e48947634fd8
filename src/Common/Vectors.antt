-- ===== src/Common/Vectors.antt =====
-- A vector of fixed size whose every access is behind a bound check: its contents by index.
use Prim.Native.Nat.{ℕ}
use mathlib.Core.Path.{◌≡◌}
use mathlib.Core.Logic.{◌≢◌}
use native.Mathlib.Omega.{arith}
use challenge_8a2ffd.Common.Tests.{◌==◌, if◌then◌else◌, ==_self}

module _ {ℓ} {A : Type ℓ} where
  -- The vector `v` with `a` stored at index `i`.
  abbrev pub update : (ℕ → A) → ℕ → A → ℕ → A
  update v i a j = if j == i then a else v j

  pub update_self : (v : ℕ → A) (i : ℕ) (a : A) → update v i a i ≡ a
  update_self v i a = rw (==_self i)

  pub update_ne : (v : ℕ → A) (i j : ℕ) (a : A) → j ≢ i → update v i a j ≡ v j
  update_ne v i j a h = ground arith
