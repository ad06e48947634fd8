-- ===== src/Sharding/Strategy.antt =====
-- `ShardingStrategy` (src/infrastructure/ShardingStrategy.cpp): the builder, the hash ring and the
-- choice of a shard. The members are those of the constructor's list and of `RegisterShard`; their
-- header is not in the repository.
use text.Mathlib.Text.{◌==◌ as same_text}
use challenge_8a2ffd.Common.{
  ℕ, zero, suc, ◌+◌, ◌-◌, ◌%◌, ◌^◌, Bool, true, false, not, ◌&&◌, ◌||◌, Option, none, some, String,
  [], ◌∷◌, ◌++◌, length, ltb, leb, if◌then◌else◌,
}
use challenge_8a2ffd.Common.Double.{Double}
use challenge_8a2ffd.Common.Json.{Json, optional, ◌>>=◌}
use challenge_8a2ffd.Common.Maps.{Entries, insert_or_assign, lower_bound, first}
use challenge_8a2ffd.Sharding.Hash.{Bytes, compute_murmur_hash, vnode_key}

abbrev pub default_shard_count : ℕ
default_shard_count = 16

abbrev pub min_shard_count : ℕ
min_shard_count = 1

abbrev pub max_shard_count : ℕ
max_shard_count = 256

pub data ShardingType : Type 0 where
  modulo consistent_hash instrument_class composite : ShardingType

pub record ShardMetadata (E : Type 0) : Type 0 where
  pub engine_id : E
  pub capacity : ℕ
  pub current_load : ℕ
  pub is_active : Bool
  pub registered_at : ℕ
  pub unregistered_at : ℕ

pub record ShardingStrategy (D E : Type 0) : Type 0 where
  pub shard_count : ℕ
  pub strategy_type : ShardingType
  pub enable_rebalance : Bool
  pub rebalance_threshold : D
  pub virtual_nodes : ℕ
  pub use_instrument_class : Bool
  pub hash_ring : Entries ℕ
  pub shard_metadata : Entries (ShardMetadata E)

-- The inner loop: the virtual nodes of a shard from `vnode` on.
unfoldable pub add_vnodes : Entries ℕ → ℕ → ℕ → ℕ → Entries ℕ
add_vnodes ring shard vnode zero = ring
add_vnodes ring shard vnode (suc n) =
    add_vnodes (insert_or_assign ring (compute_murmur_hash (vnode_key shard vnode)) shard) shard
      (suc vnode) n

-- The outer loop: the shards below `shards`.
unfoldable pub add_shards : ℕ → ℕ → Entries ℕ
add_shards virtual_nodes zero = []
add_shards virtual_nodes (suc shard) =
    add_vnodes (add_shards virtual_nodes shard) shard 0 virtual_nodes

-- What `InitializeHashRing` makes the ring.
abbrev pub ring_for : ShardingType → ℕ → ℕ → Entries ℕ
ring_for consistent_hash virtual_nodes shard_count = add_shards virtual_nodes shard_count
ring_for modulo virtual_nodes shard_count = []
ring_for instrument_class virtual_nodes shard_count = []
ring_for composite virtual_nodes shard_count = []

-- `it->second`, of the entry found or else of the first; an empty ring has none, and the code
-- follows its `end()`.
abbrev pub follow : Option (ℕ × ℕ) → Option (ℕ × ℕ) → Option ℕ
follow (some e) start = some e.1
follow none (some e) = some e.1
follow none none = none

unfoldable pub shard_at : Entries ℕ → ℕ → Option ℕ
shard_at ring hash = follow (lower_bound ring hash) (first ring)

abbrev pub clamped_count : ℕ → ℕ
clamped_count count =
    if ltb count min_shard_count
    then min_shard_count
    else if ltb max_shard_count count
    then max_shard_count
    else count

unfoldable pub out_of_range : {D : Type 0} ⦃d : Double D⦄ → D → Bool
out_of_range ⦃d⦄ threshold = d.lt threshold (d.of_ℕ 0) || d.lt (d.of_ℕ 1) threshold

abbrev pub separator : Bytes
separator = 124 ∷ []

module _ {D E : Type 0} where
  unfoldable pub initialize_hash_ring : ShardingStrategy D E → ShardingStrategy D E
  initialize_hash_ring s = record s {
    hash_ring = ring_for s.strategy_type s.virtual_nodes s.shard_count;
  }

  -- The constructor.
  unfoldable pub default_strategy : ⦃d : Double D⦄ → ShardingStrategy D E
  default_strategy ⦃d⦄ = initialize_hash_ring (record {
    shard_count = default_shard_count;
    strategy_type = consistent_hash;
    enable_rebalance = true;
    rebalance_threshold = d.lit 2 10;
    virtual_nodes = 150;
    use_instrument_class = false;
    hash_ring = [];
    shard_metadata = [];
  })

  unfoldable pub with_shard_count : ShardingStrategy D E → ℕ → ShardingStrategy D E
  unfolding initialize_hash_ring
  with_shard_count s count = initialize_hash_ring (record s { shard_count = clamped_count count })

  unfoldable pub with_strategy : ShardingStrategy D E → ShardingType → ShardingStrategy D E
  with_strategy s type = initialize_hash_ring (record s { strategy_type = type })

  unfoldable pub with_rebalance : ShardingStrategy D E → Bool → ShardingStrategy D E
  with_rebalance s enable = record s { enable_rebalance = enable }

  unfoldable pub with_rebalance_threshold :
      ⦃d : Double D⦄ → ShardingStrategy D E → D → ShardingStrategy D E
  with_rebalance_threshold ⦃d⦄ s threshold = record s {
    rebalance_threshold = if out_of_range threshold then d.lit 2 10 else threshold;
  }

  unfoldable pub with_virtual_nodes : ShardingStrategy D E → ℕ → ShardingStrategy D E
  with_virtual_nodes s vnodes = initialize_hash_ring (record s { virtual_nodes = vnodes })

  unfoldable pub with_instrument_class : ShardingStrategy D E → Bool → ShardingStrategy D E
  with_instrument_class s use_class = record s { use_instrument_class = use_class }

  unfoldable pub get_shard_consistent_hash : ShardingStrategy D E → Bytes → Option ℕ
  get_shard_consistent_hash s key = shard_at s.hash_ring (compute_murmur_hash key)

  unfoldable pub get_shard_modulo : ShardingStrategy D E → Bytes → ℕ
  get_shard_modulo s key = compute_murmur_hash key % s.shard_count

  unfoldable pub get_shard_by_instrument_class : ShardingStrategy D E → Bytes → ℕ
  get_shard_by_instrument_class s [] = get_shard_modulo s []
  get_shard_by_instrument_class s (prefix ∷ bytes) =
      if not s.use_instrument_class
      then get_shard_modulo s (prefix ∷ bytes)
      else if ltb (length (prefix ∷ bytes)) 2
      then get_shard_modulo s (prefix ∷ bytes)
      else if leb 65 prefix && leb prefix 90
      then (prefix - 65) % s.shard_count
      else if leb 48 prefix && leb prefix 57
      then (10 + (prefix - 48)) % s.shard_count
      else get_shard_modulo s (prefix ∷ bytes)

  unfoldable pub get_shard_composite : ShardingStrategy D E → Bytes → ℕ
  get_shard_composite s instrument_id = get_shard_modulo s instrument_id

  -- `none` is the undefined behaviour on an empty ring.
  unfoldable pub get_shard_for_instrument : ShardingStrategy D E → Bytes → Option ℕ
  get_shard_for_instrument s instrument_id = elim s.strategy_type [
    | modulo ↦ some (get_shard_modulo s instrument_id)
    | consistent_hash ↦ get_shard_consistent_hash s instrument_id
    | instrument_class ↦ some (get_shard_by_instrument_class s instrument_id)
    | composite ↦ some (get_shard_composite s instrument_id)
  ]

  unfoldable pub get_shard_for_order : ShardingStrategy D E → Bytes → Bytes → Bytes → Option ℕ
  get_shard_for_order s instrument_id trader_id strategy_id = elim s.strategy_type [
    | composite ↦
        get_shard_consistent_hash s
          (instrument_id ++ separator ++ trader_id ++ separator ++ strategy_id)
    | modulo ↦ get_shard_for_instrument s instrument_id
    | consistent_hash ↦ get_shard_for_instrument s instrument_id
    | instrument_class ↦ get_shard_for_instrument s instrument_id
  ]

  -- The warning about few virtual nodes changes no result.
  unfoldable pub validate : ⦃d : Double D⦄ → ShardingStrategy D E → Bool
  validate s =
      not (ltb s.shard_count min_shard_count || ltb max_shard_count s.shard_count)
      && not (out_of_range s.rebalance_threshold)

  -- An unknown name leaves the strategy as it is.
  unfoldable pub named_strategy : ShardingStrategy D E → String → ShardingStrategy D E
  named_strategy s name =
      if same_text name "modulo"
      then with_strategy s modulo
      else if same_text name "consistent"
      then with_strategy s consistent_hash
      else if same_text name "instrumentClass"
      then with_strategy s instrument_class
      else if same_text name "composite"
      then with_strategy s composite
      else s

  -- `get<uint32_t>` takes the number's low 32 bits.
  unfoldable pub with_virtual_nodes_32 : ShardingStrategy D E → ℕ → ShardingStrategy D E
  with_virtual_nodes_32 s vnodes = with_virtual_nodes s (vnodes % 2 ^ 32)

  -- `none` is an exception of the JSON library.
  unfoldable pub from_json : ⦃d : Double D⦄ → Json D → Option (ShardingStrategy D E)
  from_json j = do
    let s = default_strategy
    s ← optional (j.contains "shardCount") (j.get_uint64 "shardCount") with_shard_count s
    s ← optional (j.contains "strategy") (j.get_string "strategy") named_strategy s
    s ← optional (j.contains "enableRebalance") (j.get_bool "enableRebalance") with_rebalance s
    s ←
        optional (j.contains "rebalanceThreshold") (j.get_double "rebalanceThreshold")
          with_rebalance_threshold s
    s ← optional (j.contains "virtualNodes") (j.get_uint64 "virtualNodes") with_virtual_nodes_32 s
    optional (j.contains "useInstrumentClass") (j.get_bool "useInstrumentClass")
        with_instrument_class s
