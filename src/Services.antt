-- ===== src/Services.antt =====
-- The services (src/services): errors and their translation, and the business logic.
pub mod Errors
pub mod Translation
pub mod Request
pub mod Cache
pub mod Auth
pub mod User
pub mod Group
pub mod Messaging
pub mod WebSocket
pub mod Consistency
