-- ===== src/Sharding/Loading.antt =====
-- What `FromJson` returns.
use text.Mathlib.Text.{◌==◌ as same_text}
use challenge_8a2ffd.Common.{ℕ, ◌%◌, ◌^◌, ◌≡◌, true, false, String, if-intro}
use challenge_8a2ffd.Common.Double.{Double}
use challenge_8a2ffd.Common.Json.{Json, IsReadable, Gives, Gives-optional, Gives-optional_then}
use challenge_8a2ffd.Sharding.Strategy.{
  ShardingType, modulo, consistent_hash, instrument_class, composite, ShardingStrategy,
  with_strategy, named_strategy, with_virtual_nodes_32, out_of_range, validate, from_json,
}
use challenge_8a2ffd.Sharding.Placement.{
  Built, constructed, set_by, sets_shard_count, sets_strategy, sets_rebalance,
  sets_rebalance_threshold, sets_virtual_nodes, sets_instrument_class, Built-validate,
}

-- What the program reads from the JSON object is there at the type asked for, or not at all.
abbrev pub IsTyped : {D : Type 0} → Json D → Type 0
IsTyped j =
    IsReadable (j.contains "shardCount") (j.get_uint64 "shardCount")
    × IsReadable (j.contains "strategy") (j.get_string "strategy")
    × IsReadable (j.contains "enableRebalance") (j.get_bool "enableRebalance")
    × IsReadable (j.contains "rebalanceThreshold") (j.get_double "rebalanceThreshold")
    × IsReadable (j.contains "virtualNodes") (j.get_uint64 "virtualNodes")
    × IsReadable (j.contains "useInstrumentClass") (j.get_bool "useInstrumentClass")

module _ {D E : Type 0} ⦃d : Double D⦄ where
  named_strategy-Built :
      (s : ShardingStrategy D E) (name : String) → Built s → Built (named_strategy s name)
  unfolding named_strategy
  named_strategy-Built s name b =
      let to : (type : ShardingType) → Built (with_strategy s type) =
        λ type. set_by b (sets_strategy type) in
      if-intro Built (same_text name "modulo") (to modulo) (
        if-intro Built (same_text name "consistent") (to consistent_hash) (
          if-intro Built (same_text name "instrumentClass") (to instrument_class)
            (if-intro Built (same_text name "composite") (to composite) b)))

  with_virtual_nodes_32-Built :
      (s : ShardingStrategy D E) (vnodes : ℕ) → Built s → Built (with_virtual_nodes_32 s vnodes)
  unfolding with_virtual_nodes_32
  with_virtual_nodes_32-Built s vnodes b = set_by b (sets_virtual_nodes (vnodes % 2 ^ 32))

  from_json-Built : (j : Json D) → IsTyped j → Gives {C = ShardingStrategy D E} Built (from_json j)
  unfolding from_json
  from_json-Built j (h1, h2, h3, h4, h5, h6) =
      Gives-optional_then Built h1 constructed (λ s a b. set_by b (sets_shard_count a))
        λ s b. Gives-optional_then Built h2 b named_strategy-Built λ s b.
          Gives-optional_then Built h3 b (λ s a b. set_by b (sets_rebalance a))
            λ s b.
              Gives-optional_then Built h4 b (λ s a b. set_by b (sets_rebalance_threshold a))
                λ s b.
                  Gives-optional_then Built h5 b with_virtual_nodes_32-Built
                    λ s b. Gives-optional Built h6 b (λ s a b. set_by b (sets_instrument_class a))

  -- When the keys of the JSON object have the types that are read, and 0.2 lies between 0 and 1,
  -- `FromJson` throws nothing and returns a strategy that builder calls reach and that is valid.
  pub from_json-Built_valid :
      (j : Json D)
      → IsTyped j
      → out_of_range (d.lit 2 10) ≡ false
      → Gives {C = ShardingStrategy D E} (λ s. Built s × (validate s ≡ true)) (from_json j)
  from_json-Built_valid j typed fifth =
      let (s, e, b) = from_json-Built j typed in (s, e, (b, Built-validate fifth s b))
