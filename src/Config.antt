-- ===== src/Config.antt =====
-- src/config: the settings of the program and its log.
pub mod Settings
pub mod Logging
