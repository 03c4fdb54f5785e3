-- ===== src/Scheduler/Models.antt =====
-- protocol_scheduler/models.py. Times and durations are clock readings in ticks. Of an analysis
-- the scheduler reads the fields below; a risk score is in hundredths.
use chain_sentinel.Base.{ℕ, String, Bool, true, false, Option, List, Dict}

pub data NodeScanStatus : Type 0 where
  pending running completed failed skipped : NodeScanStatus

-- `status == NodeScanStatus.PENDING`, and so on.
abbrev pub is_pending : NodeScanStatus → Bool
is_pending pending = true
is_pending _ = false

abbrev pub is_completed : NodeScanStatus → Bool
is_completed completed = true
is_completed _ = false

abbrev pub is_failed : NodeScanStatus → Bool
is_failed failed = true
is_failed _ = false

abbrev pub is_skipped : NodeScanStatus → Bool
is_skipped skipped = true
is_skipped _ = false

pub record ExecutionBatch : Type 0 where
  pub batch_index : ℕ
  pub addresses : List String

pub record ContractAnalysis : Type 0 where
  pub risk_score : ℕ
  pub risk_level : String
  pub risk_reasons : List String
  pub is_contract : Bool
  pub is_upgradeable : Bool

pub record NodeScanResult : Type 0 where
  pub address : String
  pub status : NodeScanStatus
  pub analysis : Option ContractAnalysis
  pub error : Option String
  pub duration_ms : ℕ
  pub retry_count : ℕ
  pub started_at : Option ℕ
  pub completed_at : Option ℕ

-- What the scheduler itself may raise: a missing key of a dictionary, or a failed `assert`.
pub data Error : Type 0 where
  key_error : String → Error
  assertion_error : Error
  -- The model's own: the loop has no rounds left.
  out_of_fuel : Error

abbrev pub Results : Type 0
Results = Dict NodeScanResult
