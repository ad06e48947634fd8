-- ===== src/Adapters/Framing/Messages.antt =====
-- Messages that are written one after the other are read back, and what stops the reader.
use mathlib.Core.Path.{subst}
use mathlib.Core.List.{append-nil, append_assoc}
use challenge_8a2ffd.Common.{
  ℕ, zero, suc, ◌+◌, ◌≤◌, ◌<◌, ◌≡◌, ◌≢◌, refl, ap, ◌∙◌, inl, inr, List, [], ◌∷◌, ◌++◌, arith,
  length, ◌==◌, Bool-cases, All,
}
use challenge_8a2ffd.Sharding.Hash.{Bytes}
use challenge_8a2ffd.Adapters.Framing.{
  scan, newline_pos, take, drop, process_buffer, receive, process_buffer-idle, process_buffer-round,
  newline_pos-bound, length-drop,
}
use challenge_8a2ffd.Adapters.Framing.Chunks.{concat, receive_all}

-- No empty line inside, and no line break at the end.
abbrev pub IsUnbroken : Bytes → Type 0
IsUnbroken [] = Unit
IsUnbroken (a ∷ []) = a ≢ 10
IsUnbroken (a ∷ b ∷ bytes) = (a ≡ 10 → b ≢ 10) × IsUnbroken (b ∷ bytes)

abbrev pub IsMessage : Bytes → Type 0
IsMessage m = (0 < length m) × IsUnbroken m

-- `json.dump() + "\n\n"` for each message.
abbrev pub write_all : List Bytes → Bytes
write_all [] = []
write_all (m ∷ ms) = m ++ (10 ∷ 10 ∷ write_all ms)

abbrev pub handle_all {ℓ} : {S : Type ℓ} → (Bytes → S → S) → List Bytes → S → S
handle_all handle [] s = s
handle_all handle (m ∷ ms) s = handle_all handle ms (handle m s)

scan-message :
    (i : ℕ) (m rest : Bytes)
    → 0 < length m
    → IsUnbroken m
    → scan i (m ++ (10 ∷ 10 ∷ rest)) ≡ i + length m
unfolding scan
scan-message i [] rest p u = absurd (omega arith)
scan-message i (a ∷ []) rest p u = ground arith
scan-message i (a ∷ b ∷ m) rest p (u, us) =
    ground (arith, scan-message (suc i) (b ∷ m) rest (omega arith) us)

take-length : (m rest : Bytes) → take (length m) (m ++ rest) ≡ m
take-length [] rest = refl
take-length (b ∷ m) rest = ap (◌∷◌ b) (take-length m rest)

drop-message : (m rest : Bytes) → drop (length m + 2) (m ++ (10 ∷ 10 ∷ rest)) ≡ rest
drop-message [] rest = refl
drop-message (b ∷ m) rest =
    let size : suc (length m + 2) ≡ suc (length m) + 2 = omega arith in
    subst (λ n. drop n (b ∷ (m ++ (10 ∷ 10 ∷ rest))) ≡ rest) size (drop-message m rest)

module _ {ℓ} {S : Type ℓ} (handle : Bytes → S → S) where
  -- Messages that are written one after the other, each not empty and without an empty line in it
  -- or a line break at its end, are handled one by one in their order, and an unfinished rest stays
  -- in the buffer.
  pub process_buffer-write_all :
      (ms : List Bytes) (rest : Bytes) (s : S)
      → All IsMessage ms
      → newline_pos rest ≡ 0
      → process_buffer handle (write_all ms ++ rest) s ≡ (rest, handle_all handle ms s)
  unfolding newline_pos
  process_buffer-write_all [] rest s p e = process_buffer-idle handle rest s e
  process_buffer-write_all (m ∷ ms) rest s ((p, u), ps) e =
      let tail = write_all ms ++ rest in
      rw (append_assoc m (10 ∷ 10 ∷ write_all ms) rest) (
        process_buffer-round handle (m ++ (10 ∷ 10 ∷ tail)) s (length m)
          (omega (arith, scan-message 0 m tail p u)) (omega arith)
        ∙ rw (drop-message m tail, take-length m (10 ∷ 10 ∷ tail))
            (process_buffer-write_all ms rest (handle m s) ps e))

  finished :
      (n : ℕ) (l : Bytes) (s : S) → length l ≤ n → newline_pos (process_buffer handle l s).0 ≡ 0
  finished zero l s h =
      let inside = newline_pos-bound l in
      let none_left : newline_pos l ≡ 0 = omega arith in
      rw (process_buffer-idle handle l s none_left) none_left
  finished (suc n) l s h = elim (Bool-cases (newline_pos l == 0)) [
    | inl t ↦
        let none_left : newline_pos l ≡ 0 = ground arith in
        rw (process_buffer-idle handle l s none_left) none_left
    | inr t ↦
        let found : newline_pos l ≢ 0 = ground arith in
        let inside = newline_pos-bound l in
        let size = length-drop (newline_pos l + 2) l in
        rw (process_buffer-round handle l s (newline_pos l) refl found) (
          finished n (drop (newline_pos l + 2) l) (handle (take (newline_pos l) l) s) (omega arith))
  ]

  -- Where the loop ends no message is left that it would find.
  pub process_buffer-finished :
      (buffer : Bytes) (s : S) → newline_pos (process_buffer handle buffer s).0 ≡ 0
  process_buffer-finished buffer s = finished (length buffer) buffer s (omega arith)

  -- An empty line at the front of the buffer stops the reader for good: whatever is received after
  -- it is kept in the buffer, in its order, and no message is handled any more.
  pub receive_all-stalled :
      (chunks : List Bytes) (rest : Bytes) (s : S)
      → receive_all handle chunks (10 ∷ 10 ∷ rest, s) ≡ (10 ∷ 10 ∷ (rest ++ concat chunks), s)
  unfolding receive newline_pos scan
  receive_all-stalled [] rest s = rw append-nil refl
  receive_all-stalled (chunk ∷ chunks) rest s =
      ap (receive_all handle chunks) (process_buffer-idle handle (10 ∷ 10 ∷ (rest ++ chunk)) s refl)
      ∙ receive_all-stalled chunks (rest ++ chunk) s
      ∙ ap (λ l. (10 ∷ 10 ∷ l, s)) (append_assoc rest chunk (concat chunks))
