-- ===== src/MarketData.antt =====
-- src/domain/MarketData.h: the order books of the instruments, the events of the feed and the cache.
pub mod Book
pub mod Event
pub mod Cache
pub mod Tests
