-- ===== src/Common/Maps/Order.antt =====
-- Assignments keep a map in the order of its keys, and change the value of one key.
use challenge_8a2ffd.Common.Tests.{ltb, ltb_iff, ◌==◌, ==_iff, if◌then◌else◌, Bool-cases}
use challenge_8a2ffd.Common.Lists.{All}
use Prim.Native.Nat.{ℕ, ◌<◌}
use mathlib.Core.Path.{◌≡◌, refl}
use mathlib.Core.Logic.{◌⊎◌, inl, inr}
use mathlib.Core.Option.{none, some}
use mathlib.Core.List.{[], ◌∷◌}
use native.Mathlib.Omega.{arith}
use challenge_8a2ffd.Common.Maps.{Entries, insert_or_assign, find}

module _ {V : Type 0} where
  -- The three places where an assignment can happen.
  pub insert-cases :
      (e : ℕ × V) (m : Entries V) (h : ℕ) (v : V)
      → (h < e.0 × (insert_or_assign (e ∷ m) h v ≡ (h, v) ∷ e ∷ m))
        ⊎ ((h ≡ e.0) × (insert_or_assign (e ∷ m) h v ≡ (h, v) ∷ m))
        ⊎ (e.0 < h × (insert_or_assign (e ∷ m) h v ≡ e ∷ insert_or_assign m h v))
  unfolding insert_or_assign
  insert-cases e m h v = elim (Bool-cases (ltb h e.0)) [
    | inl t ↦ inl ((ltb_iff _ _).0 t, rw t refl)
    | inr t ↦ elim (Bool-cases (h == e.0)) [
      | inl t' ↦ inr (inl ((==_iff _ _).0 t', rw (t, t') refl))
      | inr t' ↦ inr (inr (ground arith, rw (t, t') refl))
    ]
  ]

  abbrev pub IsSorted : Entries V → Type 0
  IsSorted [] = Unit
  IsSorted (e ∷ m) = All (λ e'. e.0 < e'.0) m × IsSorted m

  pub All-map :
      {P Q : ℕ × V → Type 0} (m : Entries V) → ((e : ℕ × V) → P e → Q e) → All P m → All Q m
  All-map [] f h = h
  All-map (e ∷ m) f (p, h) = (f e p, All-map m f h)

  All-insert_none :
      (P : ℕ × V → Type 0) (h : ℕ) (v : V) → P (h, v) → All P (insert_or_assign [] h v)
  unfolding insert_or_assign
  All-insert_none P h v p = (p, tt)

  pub All-insert :
      (P : ℕ × V → Type 0) (m : Entries V) (h : ℕ) (v : V)
      → P (h, v)
      → All P m
      → All P (insert_or_assign m h v)
  All-insert P [] h v p q = All-insert_none P h v p
  All-insert P (e ∷ m) h v p (q, qs) = elim (insert-cases e m h v) [
    | inl (less, t) ↦ rw t (p, (q, qs))
    | inr (inl (same, t)) ↦ rw t (p, qs)
    | inr (inr (less, t)) ↦ rw t (q, All-insert P m h v p qs)
  ]

  insert_none-IsSorted : (h : ℕ) (v : V) → IsSorted (insert_or_assign [] h v)
  unfolding insert_or_assign
  insert_none-IsSorted h v = (tt, tt)

  pub insert-IsSorted :
      (m : Entries V) (h : ℕ) (v : V) → IsSorted m → IsSorted (insert_or_assign m h v)
  insert-IsSorted [] h v s = insert_none-IsSorted h v
  insert-IsSorted (e ∷ m) h v (all, s) = elim (insert-cases e m h v) [
    | inl (less, t) ↦ rw t (
      (less, All-map {P = λ e'. e.0 < e'.0} {Q = λ e'. h < e'.0} m (λ e' l. omega arith) all),
      (all, s),
    )
    | inr (inl (same, t)) ↦
        rw t (All-map {P = λ e'. e.0 < e'.0} {Q = λ e'. h < e'.0} m (λ e' l. omega arith) all, s)
    | inr (inr (less, t)) ↦
        rw t (All-insert (λ e'. e.0 < e'.0) m h v less all, insert-IsSorted m h v s)
  ]

  find-insert_none :
      (h : ℕ) (v : V) (n : ℕ) → find (insert_or_assign [] h v) n ≡ (if h == n then some v else none)
  unfolding find insert_or_assign
  find-insert_none h v n = refl

  -- A lookup after an assignment.
  pub find-insert :
      (m : Entries V) (h : ℕ) (v : V) (n : ℕ)
      → find (insert_or_assign m h v) n ≡ (if h == n then some v else find m n)
  unfolding find
  find-insert [] h v n = find-insert_none h v n
  find-insert (e ∷ m) h v n = elim (insert-cases e m h v) [
    | inl (less, t) ↦ rw t refl
    | inr (inl (same, t)) ↦ rw t (ground arith)
    | inr (inr (less, t)) ↦ let rest = find-insert m h v n in rw t (ground arith)
  ]
