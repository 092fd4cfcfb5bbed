-- ===== src/Redis.antt =====
-- The Redis layer (src/redis): events and their dictionaries, the presence counters, the system stream,
-- the channel between workers, and the connection.
pub mod Events
pub mod Presence
pub mod Stream
pub mod Connection
pub mod PubSub
