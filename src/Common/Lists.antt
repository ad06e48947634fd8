-- ===== src/Common/Lists.antt =====
-- Lists measured and indexed by native numbers, under the library's names.
use Prim.Native.Nat.{ℕ, zero, suc, ◌+◌, ◌<◌}
use mathlib.Core.Path.{◌≡◌, refl, ap}
use mathlib.Core.Logic.{◌≢◌}
use mathlib.Core.List.{List, [], ◌∷◌, ◌++◌}
use mathlib.Core.Option.{Option, none, some}
use native.Mathlib.Omega.{arith}

module _ {ℓ} {A : Type ℓ} where
  abbrev pub length : List A → ℕ
  length [] = 0
  length (a ∷ l) = suc (length l)

  abbrev pub get_elem? : List A → ℕ → Option A
  get_elem? [] i = none
  get_elem? (a ∷ l) zero = some a
  get_elem? (a ∷ l) (suc i) = get_elem? l i

  abbrev pub set : List A → ℕ → A → List A
  set [] i b = []
  set (a ∷ l) zero b = b ∷ l
  set (a ∷ l) (suc i) b = a ∷ set l i b

  -- Shut, since a long one must not be computed by the tactics.
  unfoldable pub replicate : ℕ → A → List A
  replicate zero a = []
  replicate (suc n) a = a ∷ replicate n a

  abbrev pub All {κ} : (A → Type κ) → List A → Type κ
  All P [] = Unit
  All P (a ∷ l) = P a × All P l

  pub length-append : (k l : List A) → length (k ++ l) ≡ length k + length l
  length-append [] l = omega arith
  length-append (a ∷ k) l = omega (arith, length-append k l)

  pub length-set : (l : List A) (i : ℕ) (b : A) → length (set l i b) ≡ length l
  length-set [] i b = refl
  length-set (a ∷ l) zero b = refl
  length-set (a ∷ l) (suc i) b = ap suc (length-set l i b)

  pub get_elem?-set_self :
      (l : List A) (i : ℕ) (b : A) → i < length l → get_elem? (set l i b) i ≡ some b
  get_elem?-set_self [] i b h = elim h [ ]
  get_elem?-set_self (a ∷ l) zero b h = refl
  get_elem?-set_self (a ∷ l) (suc i) b h = get_elem?-set_self l i b (omega arith)

  pub length-replicate : (n : ℕ) (a : A) → length (replicate n a) ≡ n
  unfolding replicate
  length-replicate zero a = refl
  length-replicate (suc n) a = ap suc (length-replicate n a)

  pub All-append {κ} : (P : A → Type κ) (k l : List A) → All P k → All P l → All P (k ++ l)
  All-append P [] l p q = q
  All-append P (a ∷ k) l (p, ps) q = (p, All-append P k l ps q)

  pub All-map {κ μ} :
      (P : A → Type κ) (Q : A → Type μ) → ((a : A) → P a → Q a) → (l : List A) → All P l → All Q l
  All-map P Q f [] ps = tt
  All-map P Q f (a ∷ l) (p, ps) = (f a p, All-map P Q f l ps)

  pub get_elem?-append : (k l : List A) (a : A) → get_elem? (k ++ (a ∷ l)) (length k) ≡ some a
  get_elem?-append [] l a = refl
  get_elem?-append (b ∷ k) l a = get_elem?-append k l a

  pub get_elem?-append_left :
      (k l : List A) (i : ℕ) → i < length k → get_elem? (k ++ l) i ≡ get_elem? k i
  get_elem?-append_left [] l i h = absurd (omega arith)
  get_elem?-append_left (a ∷ k) l zero h = refl
  get_elem?-append_left (a ∷ k) l (suc i) h = get_elem?-append_left k l i (omega arith)

  pub get_elem?-inside : (l : List A) (i : ℕ) → i < length l → (a : A) × (get_elem? l i ≡ some a)
  get_elem?-inside [] i h = absurd (omega arith)
  get_elem?-inside (a ∷ l) zero h = (a, refl)
  get_elem?-inside (a ∷ l) (suc i) h = get_elem?-inside l i (omega arith)

  pub get_elem?-set_other :
      (l : List A) (i k : ℕ) (b : A) → i ≢ k → get_elem? (set l i b) k ≡ get_elem? l k
  get_elem?-set_other [] i k b h = refl
  get_elem?-set_other (a ∷ l) zero zero b h = absurd (h refl)
  get_elem?-set_other (a ∷ l) zero (suc k) b h = refl
  get_elem?-set_other (a ∷ l) (suc i) zero b h = refl
  get_elem?-set_other (a ∷ l) (suc i) (suc k) b h = get_elem?-set_other l i k b (λ e. h (ap suc e))

  pub set-append : (k l : List A) (a b : A) → set (k ++ (a ∷ l)) (length k) b ≡ k ++ (b ∷ l)
  set-append [] l a b = refl
  set-append (c ∷ k) l a b = ap (◌∷◌ c) (set-append k l a b)
