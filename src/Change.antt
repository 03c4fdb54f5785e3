-- ===== src/Change.antt =====
-- continuous/change_detection: how two snapshots of a watched protocol differ.
pub mod Models
pub mod Snapshot
pub mod Diff
pub mod Detector
pub mod Store
pub mod Tests
