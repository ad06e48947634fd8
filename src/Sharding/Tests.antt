-- ===== src/Sharding/Tests.antt =====
-- Shards and lookups on concrete values, with fixed-point thresholds.
use text.Mathlib.Text.{◌==◌ as same_text}
use challenge_8a2ffd.Common.{
  ℕ, ◌<◌, ◌≡◌, ◌≢◌, refl, ◌⊎◌, inr, true, false, some, none, [], ◌∷◌, arith, if◌then◌else◌,
}
use challenge_8a2ffd.Common.Fixed.{Fixed, fixed_double}
use challenge_8a2ffd.Common.Json.{Json, Gives}
use challenge_8a2ffd.Sharding.Hash.{Bytes, decimal, to_string}
use challenge_8a2ffd.Sharding.Strategy.{
  ShardingStrategy, ShardMetadata, composite, default_strategy, with_strategy, initialize_hash_ring,
  add_shards, shard_at, validate, from_json, get_shard_for_instrument, get_shard_for_order,
  out_of_range,
}
use challenge_8a2ffd.Sharding.Shards.{register_shard}
use challenge_8a2ffd.Sharding.Ring.{add_shards_moves_to_new}
use challenge_8a2ffd.Sharding.Successor.{IsSuccessor, shard_at-IsSuccessor}
use challenge_8a2ffd.Sharding.Placement.{
  Built, constructed, set_by, sets_strategy, get_shard_for_instrument_total,
  composite_order_undefined,
}
use challenge_8a2ffd.Sharding.Loading.{IsTyped, from_json-Built_valid}

abbrev Strategy : Type 0
Strategy = ShardingStrategy Fixed (Unit {0})

fifth_in_range : out_of_range (fixed_double.lit 2 10) ≡ false
unfolding out_of_range
fifth_in_range = refl

-- "AAPL"
abbrev aapl : Bytes
aapl = 65 ∷ 65 ∷ 80 ∷ 76 ∷ []

digits_of_1024 : to_string 1024 ≡ 49 ∷ 48 ∷ 50 ∷ 52 ∷ []
unfolding to_string decimal
digits_of_1024 = refl

add_shards_moves_to_new_example :
    (shard_at (add_shards 2 4) 1000 ≡ shard_at (add_shards 2 3) 1000)
    ⊎ (shard_at (add_shards 2 4) 1000 ≡ some 3)
add_shards_moves_to_new_example = add_shards_moves_to_new 2 3 1000

shard_at-IsSuccessor_example :
    (e : ℕ × ℕ) × (shard_at (add_shards 2 3) 1000 ≡ some e.1) × IsSuccessor (add_shards 2 3) 1000 e
shard_at-IsSuccessor_example = shard_at-IsSuccessor 2 3 1000 (omega arith) (omega arith)

abbrev default_one : Strategy
default_one = default_strategy

default_hashes : (default_one.strategy_type ≢ composite) × (default_one.virtual_nodes ≡ 150)
unfolding default_strategy initialize_hash_ring
default_hashes = (λ e. absurd cc, refl)

get_shard_for_instrument_total_example :
    (shard : ℕ) × (get_shard_for_instrument default_one aapl ≡ some shard)
    × (shard < default_one.shard_count)
get_shard_for_instrument_total_example =
    get_shard_for_instrument_total fifth_in_range default_one aapl constructed
      (inr (omega (arith, default_hashes.1)))

abbrev composite_one : Strategy
composite_one = with_strategy default_one composite

composite_is : composite_one.strategy_type ≡ composite
unfolding with_strategy initialize_hash_ring
composite_is = refl

composite_order_undefined_example :
    get_shard_for_order composite_one aapl (49 ∷ []) (50 ∷ []) ≡ none
composite_order_undefined_example =
    composite_order_undefined fifth_in_range composite_one aapl (49 ∷ []) (50 ∷ [])
      (set_by constructed (sets_strategy composite)) composite_is

abbrev engine_3 : ShardMetadata (Unit {0})
engine_3 = record {
  engine_id = tt;
  capacity = 100;
  current_load = 40;
  is_active = false;
  registered_at = 0;
  unregistered_at = 0;
}

abbrev registered : Strategy
registered = register_shard default_one 3 engine_3 9

-- {"shardCount": 300, "strategy": "modulo"}
abbrev settings : Json Fixed
settings = record {
  contains = λ key. if same_text key "shardCount" then true else same_text key "strategy";
  get_uint64 = λ key. if same_text key "shardCount" then some 300 else none;
  get_string = λ key. if same_text key "strategy" then some "modulo" else none;
  get_bool = λ key. none;
  get_double = λ key. none;
}

settings-IsTyped : IsTyped settings
settings-IsTyped = (
  λ e. (300, refl),
  λ e. ("modulo", refl),
  λ e. absurd cc,
  λ e. absurd cc,
  λ e. absurd cc,
  λ e. absurd cc,
)

from_json-Built_valid_example :
    Gives {C = Strategy} (λ s. Built s × (validate s ≡ true)) (from_json settings)
from_json-Built_valid_example = from_json-Built_valid settings settings-IsTyped fifth_in_range
