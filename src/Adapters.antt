-- ===== src/Adapters.antt =====
-- What the two adapters share: how messages are cut out of a stream of bytes, the address in a URL,
-- the connection, JSON values and the ring buffer (src/adapters).
pub mod Framing
pub mod Address
pub mod Connection
pub mod Document
pub mod Ring
pub mod Tests
