-- ===== src/Risk/Correlation.antt =====
-- blockchain/risk/correlation: models.py, evidence_index.py, the rules, the registry, the matcher
-- and the engine.
pub mod Index
pub mod Rules
pub mod Registry
pub mod Matcher
use chain_sentinel.Base.{ℕ, String, List, Dict, ℤ}
use chain_sentinel.Evidence.Models.{EvidenceSeverity, ConfidenceLevel, Value}

pub data CorrelationImpact : Type 0 where
  low medium high critical : CorrelationImpact

pub data CorrelationLikelihood : Type 0 where
  low medium high : CorrelationLikelihood

-- A score delta is a number of hundredths.
pub record CorrelationRule : Type 0 where
  pub id : String
  pub title : String
  pub description : String
  pub severity : EvidenceSeverity
  pub impact : CorrelationImpact
  pub likelihood : CorrelationLikelihood
  pub score_delta : ℤ
  pub priority : ℕ

pub record CorrelatedRiskFinding : Type 0 where
  pub id : String
  pub title : String
  pub description : String
  pub severity : EvidenceSeverity
  pub confidence : ConfidenceLevel
  pub score_delta : ℤ
  pub impact : CorrelationImpact
  pub likelihood : CorrelationLikelihood
  pub explanation : String
  pub evidence_ids : List String
  pub correlation_rule : String
  pub metadata : Dict Value

pub record CorrelationResult : Type 0 where
  pub findings : List CorrelatedRiskFinding
  pub evidence_count : ℕ
  pub rules_evaluated : ℕ
