-- ===== src/Adapters/Framing/Chunks.antt =====
-- How the stream is cut into reads does not matter.
use mathlib.Core.List.{append-nil, append_assoc}
use challenge_8a2ffd.Common.{
  ℕ, zero, suc, ◌+◌, ◌≤◌, ◌≡◌, ◌≢◌, refl, sym, ap, ◌∙◌, inl, inr, List, [], ◌∷◌, ◌++◌, arith,
  length, ◌==◌, Bool-cases,
}
use challenge_8a2ffd.Sharding.Hash.{Bytes}
use challenge_8a2ffd.Adapters.Framing.{
  scan, newline_pos, take, drop, process_rounds, process_buffer, receive, length-drop,
  newline_pos-bound, process_buffer-idle, process_buffer-round,
}

scan-append : (i : ℕ) (k l : Bytes) → scan i k ≢ 0 → scan i (k ++ l) ≡ scan i k
unfolding scan
scan-append i [] l h = absurd (h refl)
scan-append i (a ∷ []) l h = absurd (h refl)
scan-append i (a ∷ b ∷ k) l h = ground (arith, scan-append (suc i) (b ∷ k) l)

newline_pos-append : (k l : Bytes) → newline_pos k ≢ 0 → newline_pos (k ++ l) ≡ newline_pos k
unfolding newline_pos
newline_pos-append k l h = scan-append 0 k l h

take-append : (n : ℕ) (k l : Bytes) → n ≤ length k → take n (k ++ l) ≡ take n k
take-append zero k l h = refl
take-append (suc n) [] l h = absurd (omega arith)
take-append (suc n) (b ∷ k) l h = ap (◌∷◌ b) (take-append n k l (omega arith))

drop-append : (n : ℕ) (k l : Bytes) → n ≤ length k → drop n (k ++ l) ≡ drop n k ++ l
drop-append zero k l h = refl
drop-append (suc n) [] l h = absurd (omega arith)
drop-append (suc n) (b ∷ k) l h = drop-append n k l (omega arith)

abbrev pub concat : List Bytes → Bytes
concat [] = []
concat (chunk ∷ chunks) = chunk ++ concat chunks

module _ {ℓ} {S : Type ℓ} (handle : Bytes → S → S) where
  abbrev pub receive_all : List Bytes → Bytes × S → Bytes × S
  receive_all [] state = state
  receive_all (chunk ∷ chunks) state = receive_all chunks (receive handle chunk state)

  process_buffer-append_within :
      (n : ℕ) (k l : Bytes) (s : S)
      → length k ≤ n
      → process_buffer handle (k ++ l) s ≡ receive handle l (process_buffer handle k s)
  unfolding receive process_buffer process_rounds
  process_buffer-append_within zero [] l s h = refl
  process_buffer-append_within zero (b ∷ k) l s h = absurd (omega arith)
  process_buffer-append_within (suc n) k l s h = elim (Bool-cases (newline_pos k == 0)) [
    | inl t ↦ rw (process_buffer-idle handle k s (ground arith)) refl
    | inr t ↦
        let found : newline_pos k ≢ 0 = ground arith in
        let inside = newline_pos-bound k in
        let size = length-drop (newline_pos k + 2) k in
        let within : newline_pos k + 2 ≤ length k = ground arith in
        let shorter : length (drop (newline_pos k + 2) k) ≤ n = omega arith in
        rw (process_buffer-round handle k s (newline_pos k) refl found) (
          process_buffer-round handle (k ++ l) s (newline_pos k) (newline_pos-append k l found)
            found
          ∙ rw
              (
                take-append (newline_pos k) k l (omega arith),
                drop-append (newline_pos k + 2) k l within,
              )
              (process_buffer-append_within n (drop (newline_pos k + 2) k) l
                (handle (take (newline_pos k) k) s) shorter))
  ]

  pub process_buffer-append :
      (k l : Bytes) (s : S)
      → process_buffer handle (k ++ l) s ≡ receive handle l (process_buffer handle k s)
  process_buffer-append k l s = process_buffer-append_within (length k) k l s (omega arith)

  receive_all-process_buffer :
      (chunks : List Bytes) (k : Bytes) (s : S)
      → receive_all chunks (process_buffer handle k s)
        ≡ process_buffer handle (k ++ concat chunks) s
  receive_all-process_buffer [] k s = rw append-nil refl
  receive_all-process_buffer (chunk ∷ chunks) k s =
      ap (receive_all chunks) (sym (process_buffer-append k chunk s))
      ∙ receive_all-process_buffer chunks (k ++ chunk) s
      ∙ ap (λ t. process_buffer handle t s) (append_assoc k chunk (concat chunks))

  -- Bytes received piece by piece leave the same state and the same rest as the whole stream
  -- processed at once, wherever the pieces are cut.
  pub receive_all_lem :
      (chunks : List Bytes) (s : S)
      → receive_all chunks ([], s) ≡ process_buffer handle (concat chunks) s
  unfolding newline_pos scan
  receive_all_lem chunks s =
      ap (receive_all chunks) (sym (process_buffer-idle handle [] s refl))
      ∙ receive_all-process_buffer chunks [] s
