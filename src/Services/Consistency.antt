-- ===== src/Services/Consistency.antt =====
-- Every service method keeps the integrity of the tables, whether it returns or raises.
mod Rules
mod Sessions
mod Social
pub use Rules.*
pub use Sessions.*
pub use Social.*
