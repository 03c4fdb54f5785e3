-- ===== src/Scheduler.antt =====
-- backend/app/blockchain/protocol_scheduler: scans the nodes of a graph in dependency order.
pub mod Tests
pub mod Models
pub mod Retry
pub mod Worker
pub mod Incoming
pub mod Run
pub mod Aggregate
pub mod Outcome
