-- ===== src/Risk.antt =====
-- The risk engine: services/risk_engine.py over the evidence and the correlation of
-- blockchain/risk.
pub mod Evidence
pub mod Correlation
pub mod Engine
pub mod Tests
