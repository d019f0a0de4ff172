-- ===== src/Config.antt =====
-- internal/config/config.go: the configuration, its defaults and its validation.
pub mod Values
pub mod Retry
pub mod Sections
pub mod Security
pub mod Observing
pub mod Env
pub mod Load
pub mod Ready
pub mod Stable
