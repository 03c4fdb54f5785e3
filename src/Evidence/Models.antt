-- ===== src/Evidence/Models.antt =====
-- risk/evidence_types.py, `RiskEvidence` of risk/models.py and continuous/risk_delta/models.py, as
-- far as the risk engine and alerting read them. A score is its number of hundredths.
use chain_sentinel.Base.{ℕ, String, Bool, true, false, List, Dict, ℤ}

pub data EvidenceSource : Type 0 where
  governance liquidity wallet protocol relationship threat_surface : EvidenceSource
  proxy capability honeypot simulation classification system : EvidenceSource

pub data EvidenceSeverity : Type 0 where
  info low medium high critical : EvidenceSeverity

pub data EvidenceCategory : Type 0 where
  upgradeability authority capability honeypot liquidity wallet : EvidenceCategory
  protocol relationship threat classification confidence system : EvidenceCategory

-- The levels of confidence that the code names.
pub data ConfidenceLevel : Type 0 where
  low medium high : ConfidenceLevel

-- A value of an evidence's metadata, where an entry with None is left out; `amount` is an integer.
pub data Value : Type 0 where
  text : String → Value
  flag : Bool → Value
  amount : ℤ → Value

pub record RiskEvidence : Type 0 where
  pub id : String
  pub source : EvidenceSource
  pub category : EvidenceCategory
  pub severity : EvidenceSeverity
  pub score : ℤ
  pub confidence : ConfidenceLevel
  pub reason : String
  pub metadata : Dict Value

pub data RiskTrend : Type 0 where
  increased decreased unchanged : RiskTrend

pub record RiskEvidenceBundle : Type 0 where
  pub watch_id : String
  pub evidence : List RiskEvidence
  pub captured_at : ℕ

pub record RiskSummary : Type 0 where
  pub watch_id : String
  pub total_score : ℤ
  pub evidence_count : ℕ
  pub max_severity : EvidenceSeverity
  pub severity_counts : Dict ℕ
  pub intelligence_domains : List String

pub record RiskDelta : Type 0 where
  pub watch_id : String
  pub previous_summary : RiskSummary
  pub current_summary : RiskSummary
  pub score_delta : ℤ
  pub added : List RiskEvidence
  pub removed : List RiskEvidence
  pub updated : List (RiskEvidence × RiskEvidence)
  pub trend : RiskTrend

pub record RiskDeltaExplanation : Type 0 where
  pub headline : String
  pub reasons : List String
  pub contributing_evidence_ids : List String
  pub affected_domains : List String
  pub metadata : Dict String

pub record EvidenceSummary : Type 0 where
  pub added_count : ℕ
  pub removed_count : ℕ
  pub updated_count : ℕ
  pub affected_domains : List String
  pub contributing_signals : List String

pub record RiskDeltaReport : Type 0 where
  pub watch_id : String
  pub delta : RiskDelta
  pub previous_summary : RiskSummary
  pub current_summary : RiskSummary
  pub trend : RiskTrend
  pub explanation : RiskDeltaExplanation
  pub evidence_summary : EvidenceSummary

abbrev pub severity_value : EvidenceSeverity → String
severity_value info = "info"
severity_value low = "low"
severity_value medium = "medium"
severity_value high = "high"
severity_value critical = "critical"

abbrev pub trend_value : RiskTrend → String
trend_value increased = "increased"
trend_value decreased = "decreased"
trend_value unchanged = "unchanged"

abbrev pub is_increased : RiskTrend → Bool
is_increased increased = true
is_increased _ = false

abbrev pub is_critical : EvidenceSeverity → Bool
is_critical critical = true
is_critical _ = false

abbrev pub is_high : EvidenceSeverity → Bool
is_high high = true
is_high _ = false
