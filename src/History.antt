-- ===== src/History.antt =====
-- continuous/history: the records of a watch, its baseline, and how long records are kept.
pub mod Tests
pub mod Models
pub mod Store
pub mod Baseline
pub mod Retention
