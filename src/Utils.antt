-- ===== src/Utils.antt =====
-- src/utils: the background tasks. The clock and the identifiers are arguments of the model.
pub mod Tasks
