-- ===== src/Core.antt =====
-- vyomel/core: what every other layer shares.
pub mod Types
pub mod Errors
pub mod Json
pub mod Redact
