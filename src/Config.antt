-- ===== src/Config.antt =====
-- internal/config: the configuration file, decoded, its defaults and its validation.
pub mod Types
pub mod Defaults
pub mod Strings
pub mod Hosted
pub mod Runtime
pub mod Validation
pub mod Validate
pub mod Validated
