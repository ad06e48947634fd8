-- ===== src/Sharding.antt =====
-- src/infrastructure/ShardingStrategy.cpp: which shard an instrument or an order goes to, and the
-- shards that are registered.
pub mod Hash
pub mod Strategy
pub mod Shards
pub mod Ring
pub mod Successor
pub mod Placement
pub mod Registry
pub mod Decimal
pub mod Loading
pub mod Tests
