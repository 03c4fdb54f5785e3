-- ===== src/Evidence.antt =====
-- Risk evidence, and the report of how it changed.
pub mod Models
pub mod Severity
