-- ===== src/Adapters/Document.antt =====
-- What the program asks of a parsed JSON text whose strings it searches or compares: `value` gives a
-- default for a key that is missing, and throws (`none`) for a value of another type and when the
-- text is no object.
use challenge_8a2ffd.Common.{String, Bool, true, false, Option, none, some}
use challenge_8a2ffd.Common.Int.{ℤ}
use challenge_8a2ffd.Sharding.Hash.{Bytes}

pub record Document (D : Type 0) : Type 0 where
  pub is_object : Bool
  pub contains : String → Bool
  pub get_string : String → Option Bytes
  pub get_double : String → Option D
  pub get_int : String → Option ℤ
  pub get_bool : String → Option Bool

-- `nlohmann::json::parse`, where `none` is the `parse_error`.
abbrev pub Parser : Type 0 → Type 0
Parser D = Bytes → Option (Document D)

abbrev pub value_or {ℓ} : {A : Type ℓ} → Bool → Bool → Option A → A → Option A
value_or false present got default = none
value_or true false got default = some default
value_or true true got default = got

module _ {D : Type 0} where
  abbrev pub string_value : Document D → String → Bytes → Option Bytes
  string_value json key default =
      value_or json.is_object (json.contains key) (json.get_string key) default

  abbrev pub double_value : Document D → String → D → Option D
  double_value json key default =
      value_or json.is_object (json.contains key) (json.get_double key) default

  abbrev pub int_value : Document D → String → ℤ → Option ℤ
  int_value json key default =
      value_or json.is_object (json.contains key) (json.get_int key) default

  abbrev pub bool_value : Document D → String → Bool → Option Bool
  bool_value json key default =
      value_or json.is_object (json.contains key) (json.get_bool key) default

-- A value that is written.
pub data Value (D : Type 0) : Type 0 where
  text : Bytes → Value D
  number : D → Value D
  integer : ℤ → Value D
