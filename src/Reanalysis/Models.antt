-- ===== src/Reanalysis/Models.antt =====
-- continuous/reanalysis/models.py, but for the evidence delta, which the risk delta reads too.
use chain_sentinel.Base.{ℕ, String, List, Dict}
use chain_sentinel.Evidence.Models.{RiskEvidence}
use chain_sentinel.RiskDelta.Classifier.{EvidenceDelta}
use chain_sentinel.Change.Models.{ChangeType, ChangeDetectionResult}

pub data ReanalysisModule : Type 0 where
  capability protocol threat governance liquidity relationship : ReanalysisModule

abbrev pub module_value : ReanalysisModule → String
module_value capability = "capability"
module_value protocol = "protocol"
module_value threat = "threat"
module_value governance = "governance"
module_value liquidity = "liquidity"
module_value relationship = "relationship"

pub record ExecutionPlan : Type 0 where
  pub plan_id : String
  pub watch_id : String
  pub modules : List ReanalysisModule
  pub triggered_by : List ChangeType
  pub affected_contracts : List String
  pub metadata : Dict String

pub record ReanalysisMetrics : Type 0 where
  pub modules_planned : ℕ
  pub modules_executed : ℕ
  pub duration_ms : ℕ
  pub evidence_added_count : ℕ
  pub evidence_removed_count : ℕ
  pub evidence_updated_count : ℕ

pub record ReanalysisResult : Type 0 where
  pub watch_id : String
  pub execution_plan : ExecutionPlan
  pub executed_modules : List ReanalysisModule
  pub new_evidence : List RiskEvidence
  pub evidence_delta : EvidenceDelta
  pub metrics : ReanalysisMetrics
  pub change_result : ChangeDetectionResult
