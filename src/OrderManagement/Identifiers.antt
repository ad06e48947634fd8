-- ===== src/OrderManagement/Identifiers.antt =====
-- `generateOrderId`: the ids of orders differ, and what the caller gets of one
-- (src/adapters/OrderManagementAdapter.cpp).
use challenge_8a2ffd.Common.{
  ℕ, ◌^◌, ◌<◌, ◌≡◌, refl, sym, ap, ◌∙◌, false, some, [], ◌∷◌, ◌++◌, arith, if◌then◌else◌, ◌==◌, All,
  All-map, Bool-cases, suc, inc64, false, none, inl, inr,
}
use challenge_8a2ffd.Sharding.Hash.{Bytes, to_string}
use challenge_8a2ffd.Sharding.Decimal.{read_decimal, read_decimal-to_string}
use challenge_8a2ffd.Texts.{same_bytes, same_bytes-eq}
use challenge_8a2ffd.Texts.Keyed.{Keyed, find, find-none}
use challenge_8a2ffd.Texts.Numbers.{IsDigit, to_string-IsDigit, stoull, stoull-to_string}
use challenge_8a2ffd.OrderManagement.{order_key}

abbrev after_dash : Bytes → Bytes
after_dash [] = []
after_dash (b ∷ bytes) = if b == 45 then bytes else after_dash bytes

-- The number in an order's id.
abbrev pub number_of : Bytes → ℕ
number_of key = read_decimal (after_dash key)

after_dash-append : (k rest : Bytes) → All IsDigit k → after_dash (k ++ (45 ∷ rest)) ≡ rest
after_dash-append [] rest d = refl
after_dash-append (b ∷ k) rest ((low, high), d) =
    let other : (b == 45) ≡ false = ground arith in rw other (after_dash-append k rest d)

pub number_of-order_key : (time id : ℕ) → id < 2 ^ 64 → number_of (order_key time id) ≡ id
unfolding order_key
number_of-order_key time id h =
    ap read_decimal (after_dash-append (to_string time) (to_string id) (to_string-IsDigit time))
    ∙ read_decimal-to_string id h

-- Ids with different numbers are different, whatever their times.
pub order_key-injective :
    (time time' id id' : ℕ)
    → id < 2 ^ 64
    → id' < 2 ^ 64
    → order_key time id ≡ order_key time' id'
    → id ≡ id'
order_key-injective time time' id id' h h' e =
    sym (number_of-order_key time id h) ∙ ap number_of e ∙ number_of-order_key time' id' h'

-- `std::stoull` reads the time and stops at the dash.
pub stoull-order_key : (time id : ℕ) → time < 2 ^ 64 → stoull (order_key time id) ≡ some time
unfolding order_key
stoull-order_key time id h = stoull-to_string time (45 ∷ to_string id) h refl

module _ {V : Type 0} where
  -- Ids below a number are below the next, and differ from the one that is made of it.
  pub used_later :
      (id : ℕ) (m : Keyed (V))
      → suc id < 2 ^ 64
      → All (λ e. number_of e.0 < id) m
      → All (λ e. number_of e.0 < inc64 id) m
  used_later id m small h =
      All-map (λ e. number_of e.0 < id) (λ e. number_of e.0 < inc64 id) (λ e below. omega arith) m h

  pub find-fresh :
      (time id : ℕ) (m : Keyed (V))
      → id < 2 ^ 64
      → All (λ e. number_of e.0 < id) m
      → find m (order_key time id) ≡ none
  find-fresh time id m small h = find-none m (order_key time id) (
      All-map (λ e. number_of e.0 < id) (λ e. same_bytes e.0 (order_key time id) ≡ false)
        (λ e below. elim (Bool-cases (same_bytes e.0 (order_key time id))) [
          | inl t ↦
              let same = ap number_of (same_bytes-eq e.0 (order_key time id) t) in
              absurd (omega (arith, number_of-order_key time id small))
          | inr t ↦ t
        ])
        m h)
