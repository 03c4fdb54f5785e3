-- ===== src/Watch.antt =====
-- backend/app/blockchain/continuous: the registry of watched protocols, its scheduler and its
-- lifecycle manager.
pub mod Tests
pub mod Models
pub mod Schedule
pub mod Subscription
pub mod Store
pub mod Registry
pub mod Manager
pub mod Lifecycle
