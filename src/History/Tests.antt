-- ===== src/History/Tests.antt =====
-- Three records of a watch, of which the baseline protects the oldest.
use chain_sentinel.Base.{
  ℕ, String, ◌≡◌, refl, true, false, some, List, [], ◌∷◌, sort_by, mem, add, Dict, get, put,
  decimal,
}
use chain_sentinel.History.Models.{
  HistoricalRecord, HistoryRecordType, ProtocolSnapshot, RetentionPolicy,
}
use chain_sentinel.History.Store.{empty_history, get_record}
use chain_sentinel.History.Store.Keyed.{
  Change, append_record, remove_ids, run, run-immutable, removed_by,
}
use chain_sentinel.History.Baseline.{get_baseline, set_all, first_of, set_all_lem}
use chain_sentinel.History.Retention.{apply}
use chain_sentinel.History.Retention.Kept.{Retained, apply-Retained}

abbrev entry : String → String → ℕ → HistoricalRecord
entry k reference t = record {
  record_id = k;
  watch_id = "w";
  record_type = HistoryRecordType.snapshot;
  timestamp = t;
  reference_id = reference;
  payload = [];
}

abbrev changes : List Change
changes =
    append_record (entry "r1" "s1" 0)
    ∷ append_record (entry "r2" "s2" 10)
    ∷ append_record (entry "r3" "s3" 200000)
    ∷ []

abbrev baseline : ProtocolSnapshot
baseline = record {
  snapshot_id = "s1";
  watch_id = "w";
  chain_id = 1;
  root_address = "0xab";
  captured_at = 0;
  contracts = [];
  dependency_fingerprint = "";
  liquidity_fingerprint = "";
  runtime_fingerprint = "";
  metadata = [];
}

abbrev policy : RetentionPolicy
policy = record {
  max_records_per_watch = 10;
  max_age_days = 1;
  retain_baseline = true;
  archive_removed = true;
}

abbrev baselines : Dict ProtocolSnapshot
baselines = ("w", baseline) ∷ []

-- The second record has expired; the first has too, but is the baseline's.
apply_runs :
    (apply decimal
      (run empty_history changes)
      (some baselines)
      "w"
      (some policy)
      200000).0.removed_record_ids
    ≡ "r2" ∷ []
unfolding apply run sort_by get put decimal mem add
apply_runs = refl

apply-Retained_example :
    Retained
      (run empty_history changes)
      (apply decimal (run empty_history changes) (some baselines) "w" (some policy) 200000).1
      (some baselines)
      "w"
      policy
      200000
      (apply decimal (run empty_history changes) (some baselines) "w" (some policy) 200000).0
apply-Retained_example = apply-Retained decimal changes (some baselines) "w" (some policy) 200000

stored_runs : get_record (run empty_history changes) "r1" ≡ some (entry "r1" "s1" 0)
unfolding run get put
stored_runs = refl

removed_runs :
    mem "r1" (removed_by (append_record (entry "r1" "s9" 7) ∷ remove_ids ("r2" ∷ []) ∷ [])) ≡ false
unfolding mem removed_by
removed_runs = refl

run-immutable_example :
    get_record
      (run
        (run empty_history changes)
        (append_record (entry "r1" "s9" 7) ∷ remove_ids ("r2" ∷ []) ∷ []))
      "r1"
    ≡ some (entry "r1" "s1" 0)
run-immutable_example =
    run-immutable (append_record (entry "r1" "s9" 7) ∷ remove_ids ("r2" ∷ []) ∷ [])
      (run empty_history changes) "r1" (entry "r1" "s1" 0) stored_runs removed_runs

set_all_example :
    get_baseline (set_all [] (baseline ∷ record baseline { snapshot_id = "s2" } ∷ [])) "w"
    ≡ first_of "w" (baseline ∷ record baseline { snapshot_id = "s2" } ∷ [])
set_all_example = set_all_lem (baseline ∷ record baseline { snapshot_id = "s2" } ∷ []) "w"
