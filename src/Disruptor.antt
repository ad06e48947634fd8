-- ===== src/Disruptor.antt =====
-- src/infrastructure/DisruptorConfig.cpp: the builder of the ring buffer's configuration, its
-- validation, and the loop of a consumer thread.
pub mod Config
pub mod RingSize
pub mod Consumer
pub mod Drain
pub mod Threads
pub mod Validation
pub mod Tests
