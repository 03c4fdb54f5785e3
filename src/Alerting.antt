-- ===== src/Alerting.antt =====
-- continuous/alerting: from a risk delta report to the alerts that are sent.
pub mod Tests
pub mod Models
pub mod Rules
pub mod Deduplicator
pub mod Suppression
pub mod Router
pub mod Engine
