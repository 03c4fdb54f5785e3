-- ===== src/Change/Models.antt =====
-- continuous/change_detection/models.py, but for the snapshots, which the history keeps too.
use chain_sentinel.Base.{ℕ, String, Bool, Option, List, Dict}
use chain_sentinel.Evidence.Models.{ConfidenceLevel}

pub data ChangeType : Type 0 where
  implementation_changed owner_changed proxy_admin_changed governance_changed : ChangeType
  liquidity_changed treasury_changed bytecode_changed dependency_changed : ChangeType
  runtime_fingerprint_changed : ChangeType

pub data ChangeSeverity : Type 0 where
  info low medium high critical : ChangeSeverity

pub record ChangeEvent : Type 0 where
  pub event_id : String
  pub change_type : ChangeType
  pub severity : ChangeSeverity
  pub before : Option String
  pub after : Option String
  pub affected_contracts : List String
  pub timestamp : ℕ
  pub confidence : ConfidenceLevel
  pub metadata : Dict String

pub record ChangeDetectionResult : Type 0 where
  pub watch_id : String
  pub baseline_snapshot_id : String
  pub current_snapshot_id : String
  pub detected_at : ℕ
  pub changes : List ChangeEvent
  pub unchanged : Bool

-- `change_type.value`
abbrev pub change_type_value : ChangeType → String
change_type_value implementation_changed = "implementation_changed"
change_type_value owner_changed = "owner_changed"
change_type_value proxy_admin_changed = "proxy_admin_changed"
change_type_value governance_changed = "governance_changed"
change_type_value liquidity_changed = "liquidity_changed"
change_type_value treasury_changed = "treasury_changed"
change_type_value bytecode_changed = "bytecode_changed"
change_type_value dependency_changed = "dependency_changed"
change_type_value runtime_fingerprint_changed = "runtime_fingerprint_changed"

-- The exceptions, by message or key. A value of a kind that no dump has at its key, such as a
-- dictionary where a text belongs, is unsupported: its `str` is not modelled.
pub data Error : Type 0 where
  value_error key_error type_error unsupported : String → Error
