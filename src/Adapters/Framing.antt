-- ===== src/Adapters/Framing.antt =====
-- `processResponseBuffer` and `processMessageBuffer`: messages end in an empty line
-- (src/adapters/OrderManagementAdapter.cpp, src/adapters/MarketDataFeedAdapter.cpp).
pub mod Messages
pub mod Chunks
use challenge_8a2ffd.Common.{
  ℕ, zero, suc, ◌+◌, ◌-◌, ◌≤◌, ◌<◌, ◌≡◌, ◌≢◌, ◌∙◌, refl, ap, ◌⊎◌, inl, inr, Bool, true, false, ◌&&◌,
  List, [], ◌∷◌, ◌++◌, arith, length, if◌then◌else◌, if-intro, ◌==◌, Bool-cases,
}
use challenge_8a2ffd.Sharding.Hash.{Bytes}

-- The search for "\n\n" from index `i` on: its place, or 0 if there is none.
unfoldable pub scan : ℕ → Bytes → ℕ
scan i [] = 0
scan i (a ∷ []) = 0
scan i (a ∷ b ∷ bytes) =
    let later = scan (suc i) (b ∷ bytes) in if a == 10 && b == 10 then i else later

unfoldable pub newline_pos : Bytes → ℕ
newline_pos buffer = scan 0 buffer

abbrev pub take : ℕ → Bytes → Bytes
take zero bytes = []
take (suc n) [] = []
take (suc n) (b ∷ bytes) = b ∷ take n bytes

abbrev pub drop : ℕ → Bytes → Bytes
drop zero bytes = bytes
drop (suc n) [] = []
drop (suc n) (b ∷ bytes) = drop n bytes

-- The loop, with what a message does to the state. Fuel as long as the buffer is enough, since
-- every round removes three bytes or more.
unfoldable pub process_rounds {ℓ} : {S : Type ℓ} → (Bytes → S → S) → ℕ → Bytes → S → Bytes × S
process_rounds handle zero buffer s = (buffer, s)
process_rounds handle (suc fuel) buffer s =
    let end = newline_pos buffer in
    let later = process_rounds handle fuel (drop (end + 2) buffer) (handle (take end buffer) s) in
    if end == 0 then (buffer, s) else later

unfoldable pub process_buffer {ℓ} : {S : Type ℓ} → (Bytes → S → S) → Bytes → S → Bytes × S
process_buffer handle buffer s = process_rounds handle (length buffer) buffer s

-- The bytes that `recv` gives are added to the buffer.
unfoldable pub receive {ℓ} : {S : Type ℓ} → (Bytes → S → S) → Bytes → Bytes × S → Bytes × S
receive handle chunk (buffer, s) = process_buffer handle (buffer ++ chunk) s

pub length-drop : (n : ℕ) (l : Bytes) → length (drop n l) ≡ length l - n
length-drop zero l = omega arith
length-drop (suc n) [] = omega arith
length-drop (suc n) (b ∷ l) = omega (arith, length-drop n l)

-- A break that is found lies inside the text.
scan-bound : (i : ℕ) (l : Bytes) → (scan i l ≡ 0) ⊎ ((i ≤ scan i l) × (scan i l + 2 ≤ i + length l))
unfolding scan
scan-bound i [] = inl refl
scan-bound i (a ∷ []) = inl refl
scan-bound i (a ∷ b ∷ l) = ground (arith, scan-bound (suc i) (b ∷ l))

pub newline_pos-bound : (l : Bytes) → (newline_pos l ≡ 0) ⊎ (newline_pos l + 2 ≤ length l)
unfolding newline_pos
newline_pos-bound l = ground (arith, scan-bound 0 l)

module _ {ℓ} {S : Type ℓ} (handle : Bytes → S → S) where
  -- More fuel than bytes changes nothing.
  pub process_rounds-fuel :
      (f g : ℕ) (buffer : Bytes) (s : S)
      → length buffer ≤ f
      → length buffer ≤ g
      → process_rounds handle f buffer s ≡ process_rounds handle g buffer s
  unfolding process_rounds newline_pos scan
  process_rounds-fuel zero zero buffer s h k = refl
  process_rounds-fuel zero (suc g) [] s h k = refl
  process_rounds-fuel zero (suc g) (b ∷ buffer) s h k = absurd (omega arith)
  process_rounds-fuel (suc f) zero [] s h k = refl
  process_rounds-fuel (suc f) zero (b ∷ buffer) s h k = absurd (omega arith)
  process_rounds-fuel (suc f) (suc g) buffer s h k =
      let size = length-drop (newline_pos buffer + 2) buffer in
      elim (newline_pos-bound buffer) [
        | inl e ↦ rw e refl
        | inr inside ↦
            ap (λ t. if newline_pos buffer == 0 then (buffer, s) else t)
              (process_rounds-fuel f g (drop (newline_pos buffer + 2) buffer)
                (handle (take (newline_pos buffer) buffer) s) (omega arith) (omega arith))
      ]

  -- One round of the loop.
  process_buffer-step :
      (buffer : Bytes) (s : S)
      → process_buffer handle buffer s ≡ (
          if newline_pos buffer == 0
          then (buffer, s)
          else process_buffer handle
              (drop (newline_pos buffer + 2) buffer)
              (handle (take (newline_pos buffer) buffer) s))
  unfolding process_buffer process_rounds newline_pos scan
  process_buffer-step [] s = refl
  process_buffer-step (b ∷ l) s =
      let size = length-drop (newline_pos (b ∷ l) + 2) (b ∷ l) in
      elim (newline_pos-bound (b ∷ l)) [
        | inl e ↦ rw e refl
        | inr inside ↦
            ap (λ t. if newline_pos (b ∷ l) == 0 then (b ∷ l, s) else t)
              (process_rounds-fuel (length l) (length (drop (newline_pos (b ∷ l) + 2) (b ∷ l)))
                (drop (newline_pos (b ∷ l) + 2) (b ∷ l))
                (handle (take (newline_pos (b ∷ l)) (b ∷ l)) s) (omega arith) (omega arith))
      ]

  pub process_buffer-idle :
      (buffer : Bytes) (s : S)
      → newline_pos buffer ≡ 0
      → process_buffer handle buffer s ≡ (buffer, s)
  process_buffer-idle buffer s e = process_buffer-step buffer s ∙ rw e refl

  pub process_buffer-round :
      (buffer : Bytes) (s : S) (end : ℕ)
      → newline_pos buffer ≡ end
      → end ≢ 0
      → process_buffer handle buffer s
        ≡ process_buffer handle (drop (end + 2) buffer) (handle (take end buffer) s)
  process_buffer-round buffer s end e h =
      let more : (end == 0) ≡ false = ground arith in
      process_buffer-step buffer s ∙ rw (e, more) refl

  -- What every message keeps, the loop keeps.
  pub process_buffer-preserves {κ} :
      (P : S → Type κ)
      → ((m : Bytes) (s : S) → P s → P (handle m s))
      → (buffer : Bytes) (s : S) → P s
      → P (process_buffer handle buffer s).1
  unfolding process_buffer process_rounds
  process_buffer-preserves P step buffer s p = rounds (length buffer) buffer s p
    where
      rounds : (fuel : ℕ) (l : Bytes) (s : S) → P s → P (process_rounds handle fuel l s).1
      rounds zero l s p = p
      rounds (suc fuel) l s p =
          if-intro {A = Bytes × S} (λ result. P result.1) (newline_pos l == 0) p
            (rounds fuel (drop (newline_pos l + 2) l) (handle (take (newline_pos l) l) s)
              (step (take (newline_pos l) l) s p))

  -- A change of the state that every message commutes with, the loop commutes with.
  pub process_buffer-commutes :
      (f : S → S)
      → ((m : Bytes) (s : S) → handle m (f s) ≡ f (handle m s))
      → (buffer : Bytes) (s : S)
      → process_buffer handle buffer (f s)
        ≡ ((process_buffer handle buffer s).0, f (process_buffer handle buffer s).1)
  unfolding process_buffer process_rounds
  process_buffer-commutes f same buffer s = rounds (length buffer) buffer s
    where
      rounds :
          (fuel : ℕ) (l : Bytes) (s : S)
          → process_rounds handle fuel l (f s)
            ≡ ((process_rounds handle fuel l s).0, f (process_rounds handle fuel l s).1)
      rounds zero l s = refl
      rounds (suc fuel) l s = elim (Bool-cases (newline_pos l == 0)) [
        | inl t ↦ rw t refl
        | inr t ↦ rw t (
            ap (process_rounds handle fuel (drop (newline_pos l + 2) l))
              (same (take (newline_pos l) l) s)
            ∙ rounds fuel (drop (newline_pos l + 2) l) (handle (take (newline_pos l) l) s))
      ]
