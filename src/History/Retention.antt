-- ===== src/History/Retention.antt =====
-- `RetentionEngine` of continuous/history/retention.py. A day has 86400 seconds.
pub mod Listed
pub mod Kept
use chain_sentinel.Base.{
  ℕ, ◌+◌, ◌-◌, ◌*◌, String, Bool, ◌&&◌, not, Option, none, some, List, [], ◌∷◌, ◌==◌, ltb,
  if◌then◌else◌, length, take, filter, text_le, sort_by, sorted, mem, add, Dict, filter, ltb,
}
use chain_sentinel.History.Models.{
  HistoricalRecord, RetentionPolicy, default_retention, ArchiveManifest, ProtocolSnapshot,
}
use chain_sentinel.History.Store.{HistoryStore, list_records, remove_records}
use chain_sentinel.History.Baseline.{get_baseline}

-- `policy or RetentionPolicy()`
abbrev pub retention_or_default : Option RetentionPolicy → RetentionPolicy
retention_or_default none = default_retention
retention_or_default (some p) = p

-- The baseline store is optional.
unfoldable pub protected_reference_ids :
    Option (Dict ProtocolSnapshot) → String → RetentionPolicy → List String
protected_reference_ids baselines w policy =
    if policy.retain_baseline
    then elim baselines [
      | none ↦ []
      | some d ↦ elim (get_baseline d w) [ none ↦ [] | some s ↦ s.snapshot_id ∷ [] ]
    ]
    else []

-- `record.timestamp < now - timedelta(days=max_age_days)`, without a date before the first.
abbrev pub is_expired : HistoricalRecord → RetentionPolicy → ℕ → Bool
is_expired r policy now =
    ltb 0 policy.max_age_days && ltb (r.timestamp + policy.max_age_days * 86400) now

-- The order of the keys `(timestamp.isoformat(), record_id)`
abbrev pub age_le : (ℕ → String) → HistoricalRecord → HistoricalRecord → Bool
age_le isoformat a b =
    if isoformat a.timestamp == isoformat b.timestamp
    then text_le a.record_id b.record_id
    else text_le (isoformat a.timestamp) (isoformat b.timestamp)

-- The ids of the records, added to a set.
unfoldable pub add_ids : List HistoricalRecord → List String → List String
add_ids [] ids = ids
add_ids (r ∷ rs) ids = add_ids rs (add r.record_id ids)

abbrev pub unprotected : List String → HistoricalRecord → Bool
unprotected protected_ids r = not (mem r.reference_id protected_ids)

-- The ids of the expired records that no baseline protects.
unfoldable pub expired_ids :
    List HistoricalRecord → (protected_ids : List String) → RetentionPolicy → ℕ → List String
unfolding add_ids
expired_ids records protected_ids policy now =
    add_ids (filter (λ r. unprotected protected_ids r && is_expired r policy now) records) []

-- The oldest records beyond the limit that no baseline protects.
unfoldable pub overflow_records :
    (ℕ → String)
    → List HistoricalRecord
    → (protected_ids removed_ids : List String) → RetentionPolicy
    → List HistoricalRecord
overflow_records isoformat records protected_ids removed_ids policy =
    let remaining = filter (λ r. not (mem r.record_id removed_ids)) records in
    take (length remaining - policy.max_records_per_watch)
      (filter (unprotected protected_ids) (sort_by (age_le isoformat) remaining))

-- The ids to remove.
unfoldable pub remove_ids_of :
    (ℕ → String)
    → List HistoricalRecord
    → (protected_ids : List String) → RetentionPolicy
    → ℕ
    → List String
unfolding expired_ids overflow_records add_ids
remove_ids_of isoformat records protected_ids policy now =
    let expired = expired_ids records protected_ids policy now in
    add_ids (overflow_records isoformat records protected_ids expired policy) expired

unfoldable pub apply :
    (ℕ → String)
    → HistoryStore
    → Option (Dict ProtocolSnapshot)
    → (watch_id : String) → Option RetentionPolicy
    → ℕ
    → ArchiveManifest × HistoryStore
unfolding protected_reference_ids remove_ids_of remove_records list_records
apply isoformat st baselines w policy timestamp =
    let active = retention_or_default policy in
    let records = list_records isoformat st w none in
    let protected_ids = protected_reference_ids baselines w active in
    let ordered = sorted (remove_ids_of isoformat records protected_ids active timestamp) in
    let st' = (remove_records st ordered).1 in
    (
      record {
        watch_id = w;
        removed_record_ids = ordered;
        archived_record_ids = if active.archive_removed then ordered else [];
        retained_count = length (list_records isoformat st' w none);
        applied_at = timestamp;
      },
      st',
    )
