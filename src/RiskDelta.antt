-- ===== src/RiskDelta.antt =====
-- continuous/risk_delta: a summary of a bundle of evidence, and the trend between two of them.
pub mod Tests
pub mod Summary
pub mod Classifier
pub mod Explainer
pub mod Engine
