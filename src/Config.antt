-- ===== src/Config.antt =====
-- internal/config: the parts of the configuration with rules of their own.
pub mod Retry
