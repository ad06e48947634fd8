-- ===== src/Texts/Keyed.antt =====
-- `std::unordered_map` with byte strings for keys: a list of entries, each key once.
use mathlib.Core.Path.{subst}
use challenge_8a2ffd.Common.{
  suc, ◌≡◌, refl, sym, true, false, Option, none, some, List, [], ◌∷◌, inl, inr, ap, arith, length,
  if◌then◌else◌, Bool-cases, All,
}
use challenge_8a2ffd.Sharding.Hash.{Bytes}
use challenge_8a2ffd.Texts.{same_bytes, same_bytes-eq, same_bytes_self}

abbrev pub Keyed {ℓ} : Type ℓ → Type ℓ
Keyed V = List (Bytes × V)

-- A key that is the same as `key` differs from what `key` differs from.
both_keys :
    (k key other : Bytes)
    → same_bytes key other ≡ false
    → same_bytes k key ≡ true
    → same_bytes k other ≡ false
both_keys k key other h t = subst (λ x. same_bytes x other ≡ false) (sym (same_bytes-eq k key t)) h

module _ {ℓ} {V : Type ℓ} where
  unfoldable pub find : Keyed V → Bytes → Option V
  find [] key = none
  find (e ∷ m) key = if same_bytes e.0 key then some e.1 else find m key

  -- `m[key] = value`.
  unfoldable pub assign : Keyed V → Bytes → V → Keyed V
  assign [] key value = (key, value) ∷ []
  assign (e ∷ m) key value =
      let rest = assign m key value in if same_bytes e.0 key then (e.0, value) ∷ m else e ∷ rest

  -- `m.erase(it)`, with the iterator at the key.
  unfoldable pub erase : Keyed V → Bytes → Keyed V
  erase [] key = []
  erase (e ∷ m) key = let rest = erase m key in if same_bytes e.0 key then m else e ∷ rest

  pub find-assign_self : (m : Keyed V) (key : Bytes) (v : V) → find (assign m key v) key ≡ some v
  unfolding find assign
  find-assign_self [] key v = rw (same_bytes_self key) refl
  find-assign_self (e ∷ m) key v = elim (Bool-cases (same_bytes e.0 key)) [
    | inl t ↦ rw t (rw t refl)
    | inr t ↦ rw t (rw t (find-assign_self m key v))
  ]

  -- A new key adds an entry,
  pub length-assign_new :
      (m : Keyed V) (key : Bytes) (v : V)
      → find m key ≡ none
      → length (assign m key v) ≡ suc (length m)
  unfolding find assign
  length-assign_new [] key v h = refl
  length-assign_new (e ∷ m) key v h = ground (arith, length-assign_new m key v)

  -- and the key of an entry removes one.
  pub length-erase :
      (m : Keyed V) (key : Bytes) {v : V}
      → find m key ≡ some v
      → suc (length (erase m key)) ≡ length m
  unfolding find erase
  length-erase [] key h = absurd cc
  length-erase (e ∷ m) key {v} h = elim (Bool-cases (same_bytes e.0 key)) [
    | inl t ↦ rw t refl
    | inr t ↦ rw t (ap suc (length-erase m key (rw t at h)))
  ]

  pub All-assign {κ} :
      (P : Bytes × V → Type κ) (m : Keyed V) (key : Bytes) (v : V)
      → ((k : Bytes) → k ≡ key → P (k, v))
      → All P m
      → All P (assign m key v)
  unfolding assign
  All-assign P [] key v p ps = (p key refl, tt)
  All-assign P (e ∷ m) key v p (q, qs) = elim (Bool-cases (same_bytes e.0 key)) [
    | inl t ↦ rw t (p e.0 (same_bytes-eq e.0 key t), qs)
    | inr t ↦ rw t (q, All-assign P m key v p qs)
  ]

  pub All-erase {κ} :
      (P : Bytes × V → Type κ) (m : Keyed V) (key : Bytes) → All P m → All P (erase m key)
  unfolding erase
  All-erase P [] key ps = tt
  All-erase P (e ∷ m) key (q, qs) = elim (Bool-cases (same_bytes e.0 key)) [
    | inl t ↦ rw t qs
    | inr t ↦ rw t (q, All-erase P m key qs)
  ]

  -- A key that no entry has is not found.
  pub find-none :
      (m : Keyed V) (key : Bytes) → All (λ e. same_bytes e.0 key ≡ false) m → find m key ≡ none
  unfolding find
  find-none [] key ps = refl
  find-none (e ∷ m) key (p, ps) = rw p (find-none m key ps)

  -- The key of an entry keeps the number of entries,
  pub length-assign_old :
      (m : Keyed V) (key : Bytes) (v : V) {w : V}
      → find m key ≡ some w
      → length (assign m key v) ≡ length m
  unfolding find assign
  length-assign_old [] key v h = absurd cc
  length-assign_old (e ∷ m) key v h = elim (Bool-cases (same_bytes e.0 key)) [
    | inl t ↦ rw t refl
    | inr t ↦ rw t (ap suc (length-assign_old m key v (rw t at h)))
  ]

  -- and has what all keys have.
  pub All-find {κ} :
      (P : Bytes → Type κ) (m : Keyed V) (key : Bytes) {w : V}
      → All (λ e. P e.0) m
      → find m key ≡ some w
      → P key
  unfolding find
  All-find P [] key ps h = absurd cc
  All-find P (e ∷ m) key (p, ps) h = elim (Bool-cases (same_bytes e.0 key)) [
    | inl t ↦ subst P (same_bytes-eq e.0 key t) p
    | inr t ↦ All-find P m key ps (rw t at h)
  ]

  -- No key has two entries, as in every map of the standard library.
  abbrev pub IsDistinct : Keyed V → Type ℓ
  IsDistinct [] = Unit
  IsDistinct (e ∷ m) = (find m e.0 ≡ none) × IsDistinct m

  pub erase-assign :
      (m : Keyed V) (key : Bytes) (v : V) {w : V}
      → find m key ≡ some w
      → erase (assign m key v) key ≡ erase m key
  unfolding find assign erase
  erase-assign [] key v h = absurd cc
  erase-assign (e ∷ m) key v h = elim (Bool-cases (same_bytes e.0 key)) [
    | inl t ↦ rw t (rw t refl)
    | inr t ↦ rw t (rw t (ap (◌∷◌ e) (erase-assign m key v (rw t at h))))
  ]

  pub find-erase_self : (m : Keyed V) (key : Bytes) → IsDistinct m → find (erase m key) key ≡ none
  unfolding find erase
  find-erase_self [] key h = refl
  find-erase_self (e ∷ m) key (p, h) = elim (Bool-cases (same_bytes e.0 key)) [
    | inl t ↦ rw t (subst (λ k. find m k ≡ none) (same_bytes-eq e.0 key t) p)
    | inr t ↦ rw t (rw t (find-erase_self m key h))
  ]

  pub find-erase_other :
      (m : Keyed V) (key other : Bytes)
      → same_bytes key other ≡ false
      → find (erase m key) other ≡ find m other
  unfolding find erase
  find-erase_other [] key other h = refl
  find-erase_other (e ∷ m) key other h = elim (Bool-cases (same_bytes e.0 key)) [
    | inl t ↦ rw (t, both_keys e.0 key other h t) refl
    | inr t ↦ rw t (
        ap (λ rest. if same_bytes e.0 other then some e.1 else rest)
          (find-erase_other m key other h))
  ]

  pub find-assign_other :
      (m : Keyed V) (key other : Bytes) (v : V)
      → same_bytes key other ≡ false
      → find (assign m key v) other ≡ find m other
  unfolding find assign
  find-assign_other [] key other v h = rw h refl
  find-assign_other (e ∷ m) key other v h = elim (Bool-cases (same_bytes e.0 key)) [
    | inl t ↦ let differs = both_keys e.0 key other h t in rw t (rw differs refl)
    | inr t ↦ rw t (
        ap (λ rest. if same_bytes e.0 other then some e.1 else rest)
          (find-assign_other m key other v h))
  ]
