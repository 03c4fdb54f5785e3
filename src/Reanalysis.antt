-- ===== src/Reanalysis.antt =====
-- continuous/reanalysis: which modules run again after a change, and what that changes in the
-- evidence.
pub mod Models
pub mod Plan
pub mod Delta
pub mod Run
pub mod Tests
