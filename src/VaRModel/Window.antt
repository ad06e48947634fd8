-- ===== src/VaRModel/Window.antt =====
-- The ring of returns is the list of the last thousand (src/domain/VaRModel.h).
use challenge_8a2ffd.Common.{
  ℕ, zero, suc, ◌+◌, ◌-◌, ◌%◌, ◌≤◌, ◌<◌, ◌≡◌, refl, sym, ap, ◌∙◌, some, List, [], ◌∷◌, ◌++◌, arith,
  length, length-append, length-set, get_elem?, get_elem?-append, get_elem?-append_left,
  get_elem?-inside, get_elem?-set_self, get_elem?-set_other, set, ltb, if◌then◌else◌, Bool-cases,
  inl, inr, ◌==◌,
}
use challenge_8a2ffd.Common.Double.{Double}
use challenge_8a2ffd.VaRModel.{
  Maths, Weights, max_observations, min_volatility, min_size, or_zero, return_at, add_return, weigh,
  no_weights, volatility_of, start_index,
}

abbrev pub skip {ℓ} : {A : Type ℓ} → ℕ → List A → List A
skip zero l = l
skip (suc n) [] = []
skip (suc n) (a ∷ l) = skip n l

-- The last thousand.
abbrev pub recent {ℓ} : {A : Type ℓ} → List A → List A
recent returns = skip (length returns - max_observations) returns

skip-inside :
    {A : Type 0} (l : List A) (i : ℕ) (a : A)
    → get_elem? l i ≡ some a
    → skip i l ≡ a ∷ skip (suc i) l
skip-inside [] i a h = absurd cc
skip-inside (b ∷ l) zero a h = cc
skip-inside (b ∷ l) (suc i) a h = skip-inside l i a h

skip-length : {A : Type 0} (l : List A) → skip (length l) l ≡ []
skip-length [] = refl
skip-length (a ∷ l) = skip-length l

-- Each of the last thousand values stands at its index modulo the size.
pub record IsWindow {D : Type 0} (returns buffer : List D) : Type 0 where
  pub sized : length buffer ≡ max_observations
  pub held :
      (j : ℕ)
      → j < length returns
      → length returns ≤ j + max_observations
      → get_elem? buffer (j % max_observations) ≡ get_elem? returns j

module _ {D : Type 0} where
  -- A value written at the count is the newest.
  pub set-IsWindow :
      (returns buffer : List D) (r : D)
      → IsWindow returns buffer
      → IsWindow (returns ++ (r ∷ [])) (set buffer (length returns % max_observations) r)
  set-IsWindow returns buffer r w =
      let size = length-append returns (r ∷ []) in
      let slot : ℕ = length returns % max_observations in
      record {
        sized = length-set buffer (length returns % max_observations) r ∙ w.sized;
        held = λ j inside last. elim (Bool-cases (j == length returns)) [
          | inl t ↦
              let same : j ≡ length returns = ground arith in
              ap (λ k. get_elem? (set buffer slot r) (k % max_observations)) same
              ∙ get_elem?-set_self buffer slot r (omega (arith, w.sized))
              ∙ sym (ap (get_elem? (returns ++ (r ∷ []))) same ∙ get_elem?-append returns [] r)
          | inr t ↦
              let older : j < length returns = ground arith in
              get_elem?-set_other buffer slot (j % max_observations) r (λ e. absurd (omega arith))
              ∙ w.held j older (omega arith)
              ∙ sym (get_elem?-append_left returns (r ∷ []) j older)
        ];
      }

the_same : (n : ℕ) → n + 0 ≡ n
the_same n = omega arith

module _ {D : Type 0} ⦃d : Double D⦄ where
  -- The weighted sums over a list, from its first value on.
  abbrev pub weigh_list : D → List D → Weights D → Weights D
  weigh_list lambda [] w = w
  weigh_list lambda (r ∷ returns) w = weigh_list lambda returns (add_return lambda r w)

  weigh-window :
      (lambda : D) (returns buffer : List D) (start offset n i : ℕ) (w : Weights D)
      → IsWindow returns buffer
      → n + offset + i ≡ length returns
      → length returns ≤ offset + max_observations
      → start % max_observations ≡ offset % max_observations
      → weigh lambda buffer start n i w ≡ weigh_list lambda (skip (offset + i) returns) w
  unfolding weigh
  weigh-window lambda returns buffer start offset zero i w h total last same =
      let at_end : offset + i ≡ length returns = omega arith in
      sym (
        ap (λ k. weigh_list lambda (skip k returns) w) at_end
        ∙ ap (λ l. weigh_list lambda l w) (skip-length returns))
  weigh-window lambda returns buffer start offset (suc n) i w h total last same =
      let (a, e) = get_elem?-inside returns (offset + i) (omega arith) in
      let slot : (start + i) % max_observations ≡ (offset + i) % max_observations = omega arith in
      let next : offset + suc i ≡ suc (offset + i) = omega arith in
      let read_now : D = return_at buffer ((start + i) % max_observations) in
      let read : return_at buffer ((start + i) % max_observations) ≡ a =
        ap (return_at buffer) slot
        ∙ ap or_zero (h.held (offset + i) (omega arith) (omega arith) ∙ e) in
      weigh-window lambda returns buffer start offset n (suc i)
        (add_return lambda (return_at buffer ((start + i) % max_observations)) w) h (omega arith)
        last same
      ∙ ap (λ k. weigh_list lambda (skip k returns) (add_return lambda read_now w)) next
      ∙ ap (λ r. weigh_list lambda (skip (suc (offset + i)) returns) (add_return lambda r w)) read
      ∙ sym (ap (λ l. weigh_list lambda l w) (skip-inside returns (offset + i) a e))

  -- The volatility by its definition over the returns.
  abbrev pub reference_volatility : ⦃m : Maths D⦄ → D → List D → D
  reference_volatility lambda returns =
      if ltb (length returns) 2
      then min_volatility
      else volatility_of (weigh_list lambda (recent returns) no_weights)

  pub weigh-recent :
      (lambda : D) (returns buffer : List D)
      → IsWindow returns buffer
      → weigh lambda buffer
          (start_index (length returns))
          (min_size (length returns) max_observations)
          0
          no_weights
        ≡ weigh_list lambda (recent returns) no_weights
  weigh-recent lambda returns buffer h =
      weigh-window lambda returns buffer (start_index (length returns))
        (length returns - max_observations) (min_size (length returns) max_observations) 0
        no_weights h (ground arith) (omega arith) (ground arith)
      ∙ ap (λ k. weigh_list lambda (skip k returns) no_weights)
          (the_same (length returns - max_observations))
