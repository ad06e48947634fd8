-- ===== src/Common/Json.antt =====
-- What the program asks of an `nlohmann::json` object: whether it has a key, and the value of a key
-- at a type, where `none` is the exception that `get` throws on a value of another type.
use challenge_8a2ffd.Common.{ℕ, String, Bool, true, false, Option, none, some, ◌≡◌, refl, ◌<◌, ◌^◌}

pub record Json (D : Type 0) : Type 0 where
  pub contains : String → Bool
  pub get_uint64 : String → Option ℕ
  pub get_string : String → Option String
  pub get_bool : String → Option Bool
  pub get_double : String → Option D

-- An unsigned value fits 64 bits.
abbrev pub HasWords : {D : Type 0} → Json D → Type 0
HasWords j = (key : String) (n : ℕ) → j.get_uint64 key ≡ some n → n < 2 ^ 64

-- `if (config.contains(key)) builder.set(config[key].get<A>())`.
abbrev pub optional {ℓ κ} : {C : Type ℓ} {A : Type κ} → Bool → Option A → (C → A → C) → C → Option C
optional false value set c = some c
optional true none set c = none
optional true (some a) set c = some (set c a)

infixl 5 ◌>>=◌
abbrev pub ◌>>=◌ {ℓ κ} : {A : Type ℓ} {B : Type κ} → Option A → (A → Option B) → Option B
none >>= f = none
some a >>= f = f a

-- A key that is there has a value of the type asked for.
abbrev pub IsReadable {ℓ} : {A : Type ℓ} → Bool → Option A → Type ℓ
IsReadable {A = A} present value = present ≡ true → (a : A) × (value ≡ some a)

-- A result there is, and it has the property.
abbrev pub Gives {ℓ κ} : {C : Type ℓ} → (C → Type κ) → Option C → Type (ℓ ⊔ κ)
Gives {C = C} P o = (c : C) × (o ≡ some c) × P c

module _ {ℓ κ μ} {C : Type ℓ} {A : Type κ} (P : C → Type μ) where
  pub Gives-optional :
      {present : Bool} {value : Option A}
      → IsReadable present value
      → {set : C → A → C} {c : C} → P c
      → ((c : C) (a : A) → P c → P (set c a))
      → Gives P (optional present value set c)
  Gives-optional {present = false} h {c = c} p step = (c, refl, p)
  Gives-optional {present = true} {value = none} h p step = let (a, e) = h refl in absurd (cc)
  Gives-optional {present = true} {value = some a} h {set = set} {c = c} p step =
      (set c a, refl, step c a p)

  pub Gives-optional_then {ν ξ} :
      {B : Type ν} {Q : B → Type ξ} {present : Bool} {value : Option A}
      → IsReadable present value
      → {set : C → A → C} {c : C} → P c
      → ((c : C) (a : A) → P c → P (set c a))
      → {rest : C → Option B} → ((c : C) → P c → Gives Q (rest c))
      → Gives Q (optional present value set c >>= rest)
  Gives-optional_then h p step next = let (c, e, q) = Gives-optional h p step in rw e (next c q)
