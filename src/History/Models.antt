-- ===== src/History/Models.antt =====
-- continuous/history/models.py, and the snapshots of continuous/change_detection/models.py. A
-- moment is a number of seconds; ages and limits of a policy are not negative.
use chain_sentinel.Base.{ℕ, String, Bool, true, Option, List, Dict}

pub data HistoryRecordType : Type 0 where
  snapshot change_detection reanalysis evidence_delta : HistoryRecordType
  risk_delta alert_batch acknowledgement : HistoryRecordType

-- A value of a record's payload.
pub data RecordValue : Type 0 where
  text : String → RecordValue
  number : ℕ → RecordValue
  flag : Bool → RecordValue
  texts : List String → RecordValue

pub record HistoricalRecord : Type 0 where
  pub record_id : String
  pub watch_id : String
  pub record_type : HistoryRecordType
  pub timestamp : ℕ
  pub reference_id : String
  pub payload : Dict RecordValue

pub record RetentionPolicy : Type 0 where
  pub max_records_per_watch : ℕ
  pub max_age_days : ℕ
  pub retain_baseline : Bool
  pub archive_removed : Bool

-- `RetentionPolicy()`
abbrev pub default_retention : RetentionPolicy
default_retention = record {
  max_records_per_watch = 1000;
  max_age_days = 365;
  retain_baseline = true;
  archive_removed = true;
}

pub record ArchiveManifest : Type 0 where
  pub watch_id : String
  pub removed_record_ids : List String
  pub archived_record_ids : List String
  pub retained_count : ℕ
  pub applied_at : ℕ

pub record ContractSnapshot : Type 0 where
  pub address : String
  pub proxy_implementation : Option String
  pub owner : Option String
  pub proxy_admin : Option String
  pub timelock : Option String
  pub governor : Option String
  pub treasury : Option String
  pub bytecode_hash : Option String
  pub abi_hash : Option String
  pub metadata : Dict String

pub record ProtocolSnapshot : Type 0 where
  pub snapshot_id : String
  pub watch_id : String
  pub chain_id : ℕ
  pub root_address : String
  pub captured_at : ℕ
  pub contracts : List ContractSnapshot
  pub dependency_fingerprint : String
  pub liquidity_fingerprint : String
  pub runtime_fingerprint : String
  pub metadata : Dict String

-- `record_type.value`
abbrev pub record_type_value : HistoryRecordType → String
record_type_value snapshot = "snapshot"
record_type_value change_detection = "change_detection"
record_type_value reanalysis = "reanalysis"
record_type_value evidence_delta = "evidence_delta"
record_type_value risk_delta = "risk_delta"
record_type_value alert_batch = "alert_batch"
record_type_value acknowledgement = "acknowledgement"
