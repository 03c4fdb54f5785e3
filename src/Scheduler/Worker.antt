-- ===== src/Scheduler/Worker.antt =====
-- protocol_scheduler/executor.py, worker.py and metrics.py: one node's scan, a batch of them, and
-- the counts that a run keeps.
use chain_sentinel.Base.{
  ℕ, ◌+◌, ◌-◌, String, Option, none, some, List, [], ◌∷◌, ◌++◌, Result, ok, err, map_result,
  map_result,
}
use chain_sentinel.Scheduler.Models.{
  completed, failed, skipped, ContractAnalysis, NodeScanResult, Error, assertion_error,
}
use chain_sentinel.Scheduler.Retry.{
  Outcome, RetryPolicy, RetryResult, success, exhausted, assertion_failed, execute_with_retry,
}

-- The world of a run: what `analyze_node` does at its n-th call for an address, and the clock
-- readings that the scan of an address takes.
pub record Env : Type 0 where
  pub analyze_node : String → ℕ → Outcome ContractAnalysis
  pub started_at : String → ℕ
  pub completed_at : String → ℕ
  pub duration_ms : String → ℕ

module _ (env : Env) where
  unfoldable pub scan_result :
      RetryPolicy → String → RetryResult ContractAnalysis → Result Error NodeScanResult
  scan_result policy a (success analysis retry_count) = ok (record {
    address = a;
    status = completed;
    analysis = some analysis;
    error = none;
    duration_ms = env.duration_ms a;
    retry_count = retry_count;
    started_at = some (env.started_at a);
    completed_at = some (env.completed_at a);
  })
  scan_result policy a (exhausted e) = ok (record {
    address = a;
    status = failed;
    analysis = none;
    error = some e;
    duration_ms = env.duration_ms a;
    retry_count = policy.max_attempts - 1;
    started_at = some (env.started_at a);
    completed_at = some (env.completed_at a);
  })
  scan_result policy a assertion_failed = err assertion_error

  -- `NodeScanWorker.scan`
  unfoldable pub scan : RetryPolicy → String → Result Error NodeScanResult
  unfolding scan_result
  scan policy a = scan_result policy a (execute_with_retry (env.analyze_node a) policy).result

  -- `NodeScanWorker.skipped`
  unfoldable pub skip : String → String → NodeScanResult
  skip a reason = record {
    address = a;
    status = skipped;
    analysis = none;
    error = some reason;
    duration_ms = 0;
    retry_count = 0;
    started_at = none;
    completed_at = some (env.completed_at a);
  }

-- `a or b` of optional values that are never falsy.
abbrev pub or_else {ℓ} : {A : Type ℓ} → Option A → Option A → Option A
or_else none b = b
or_else (some a) b = some a

unfoldable pub merge_result : NodeScanResult → NodeScanResult → NodeScanResult
merge_result current updated = record current {
  status = updated.status;
  analysis = updated.analysis;
  error = updated.error;
  duration_ms = updated.duration_ms;
  retry_count = updated.retry_count;
  started_at = or_else updated.started_at current.started_at;
  completed_at = updated.completed_at;
}

-- `LocalAsyncWorkerPool.run_batch`: the results in the order of the tasks, or the first exception.
-- The scans share no state, so that their interleaving does not show in the results.
abbrev pub run_batch :
    {A : Type 0} → (String → Result Error A) → List String → Result Error (List A)
run_batch = map_result

-- `ProtocolScanMetricsCollector`
pub record Metrics : Type 0 where
  pub nodes_scanned : ℕ
  pub parallel_batches_executed : ℕ
  pub retry_count : ℕ
  pub node_durations_ms : List ℕ

abbrev pub no_metrics : Metrics
no_metrics = record {
  nodes_scanned = 0;
  parallel_batches_executed = 0;
  retry_count = 0;
  node_durations_ms = [];
}

abbrev pub record_batch : Metrics → Metrics
record_batch m = record m { parallel_batches_executed = m.parallel_batches_executed + 1 }

abbrev pub record_node : Metrics → ℕ → ℕ → Metrics
record_node m duration_ms retry_count = record m {
  nodes_scanned = m.nodes_scanned + 1;
  node_durations_ms = m.node_durations_ms ++ duration_ms ∷ [];
  retry_count = m.retry_count + retry_count;
}
