-- ===== src/Sharding/Shards.antt =====
-- The shards that are registered, and when their load is out of balance
-- (src/infrastructure/ShardingStrategy.cpp). An unordered map is kept by its keys; no result but
-- the order of `GetActiveShards` depends on the order.
use challenge_8a2ffd.Common.{
  ℕ, ◌+◌, Bool, true, false, not, ◌||◌, none, some, List, [], ◌∷◌, ltb, ◌==◌, if◌then◌else◌, u64,
  inc64,
}
use challenge_8a2ffd.Common.Double.{Double}
use challenge_8a2ffd.Common.Maps.{Entries, insert_or_assign, find}
use challenge_8a2ffd.Sharding.Strategy.{ShardingType, ShardMetadata, ShardingStrategy}

-- `std::max(a, b)`.
unfoldable pub double_max : {D : Type 0} ⦃d : Double D⦄ → D → D → D
double_max ⦃d⦄ a b = if d.lt a b then b else a

module _ {E : Type 0} where
  unfoldable pub active_keys : Entries (ShardMetadata E) → List ℕ
  active_keys [] = []
  active_keys (e ∷ m) = let rest = active_keys m in if e.1.is_active then e.0 ∷ rest else rest

-- The sums over the active shards.
pub record Load : Type 0 where
  pub active_count : ℕ
  pub total_capacity : ℕ
  pub total_load : ℕ

abbrev pub no_load : Load
no_load = record { active_count = 0; total_capacity = 0; total_load = 0 }

module _ {E : Type 0} where
  unfoldable pub add_load : Load → ShardMetadata E → Load
  add_load l metadata =
      if metadata.is_active
      then (record {
        active_count = inc64 l.active_count;
        total_capacity = u64 (l.total_capacity + metadata.capacity);
        total_load = u64 (l.total_load + metadata.current_load);
      })
      else l

  unfoldable pub sum_load : Load → Entries (ShardMetadata E) → Load
  sum_load l [] = l
  sum_load l (e ∷ m) = sum_load (add_load l e.1) m

  module _ {D : Type 0} where
    unfoldable pub get_active_shards : ShardingStrategy D E → List ℕ
    get_active_shards s = active_keys s.shard_metadata

    -- `now` is the steady clock's.
    unfoldable pub register_shard :
        ShardingStrategy D E → ℕ → ShardMetadata E → ℕ → ShardingStrategy D E
    register_shard s shard_id metadata now =
        if not (ltb shard_id s.shard_count) then s else (record s {
          shard_metadata =
              insert_or_assign s.shard_metadata shard_id
                (record metadata { is_active = true; registered_at = now });
        })

    unfoldable pub unregister_shard : ShardingStrategy D E → ℕ → ℕ → ShardingStrategy D E
    unregister_shard s shard_id now = elim (find s.shard_metadata shard_id) [
      | some metadata ↦ record s {
        shard_metadata =
            insert_or_assign s.shard_metadata shard_id
              (record metadata { is_active = false; unregistered_at = now });
      }
      | none ↦ s
    ]

    -- The loop that takes the greatest ratio of load and capacity.
    unfoldable pub max_ratio : ⦃d : Double D⦄ → D → Entries (ShardMetadata E) → D
    max_ratio ⦃d⦄ max_load [] = max_load
    max_ratio ⦃d⦄ max_load (e ∷ m) =
        max_ratio
          (if e.1.is_active
            then double_max max_load (d.div (d.of_ℕ e.1.current_load) (d.of_ℕ e.1.capacity))
            else max_load)
          m

    unfoldable pub should_rebalance : ⦃d : Double D⦄ → ShardingStrategy D E → Bool
    should_rebalance ⦃d⦄ s =
        let l = sum_load no_load s.shard_metadata in
        let avg_load = d.div (d.of_ℕ l.total_load) (d.of_ℕ l.active_count) in
        let max_load = max_ratio (d.of_ℕ 0) s.shard_metadata in
        if not s.enable_rebalance
        then false
        else if l.active_count == 0 || l.total_capacity == 0
        then false
        else d.lt s.rebalance_threshold (d.div (d.sub max_load avg_load) avg_load)

pub record MetricSnapshot : Type 0 where
  pub shard_count : ℕ
  pub strategy_type : ShardingType
  pub virtual_nodes : ℕ
  pub rebalance_enabled : Bool
  pub active_shards : ℕ
  pub total_capacity : ℕ
  pub total_load : ℕ

unfoldable pub get_metrics : {D E : Type 0} → ShardingStrategy D E → MetricSnapshot
get_metrics s =
    let l = sum_load no_load s.shard_metadata in
    record {
      shard_count = s.shard_count;
      strategy_type = s.strategy_type;
      virtual_nodes = s.virtual_nodes;
      rebalance_enabled = s.enable_rebalance;
      active_shards = l.active_count;
      total_capacity = l.total_capacity;
      total_load = l.total_load;
    }
