-- ===== src/Scheduler/Run/Batch.antt =====
-- One batch: the scans return, and their results go into the state.
use chain_sentinel.Base.{
  ℕ, ◌<◌, String, ◌≡◌, refl, ◌⊎◌, inl, inr, List, [], ◌∷◌, ok, map_result, map_result,
}
use chain_sentinel.Scheduler.Models.{
  NodeScanStatus, completed, failed, NodeScanResult, ContractAnalysis,
}
use chain_sentinel.Scheduler.Retry.{
  RetryPolicy, RetryResult, success, exhausted, assertion_failed, execute_with_retry,
}
use chain_sentinel.Scheduler.Retry.Laws.{Explains, execute_with_retry_lem}
use chain_sentinel.Scheduler.Worker.{Env, scan, scan_result, run_batch}

abbrev pub IsScan : NodeScanStatus → Type 0
IsScan s = (s ≡ completed) ⊎ (s ≡ failed)

abbrev pub ScanFacts : String → NodeScanResult → Type 0
ScanFacts a r = (r.address ≡ a) × IsScan r.status

-- The results of a batch, in the order of its nodes.
abbrev pub BatchFacts : List String → List NodeScanResult → Type 0
BatchFacts [] [] = Unit
BatchFacts (a ∷ nodes) (r ∷ rs) = ScanFacts a r × BatchFacts nodes rs
BatchFacts _ _ = ⊥

module _ (env : Env) (policy : RetryPolicy) (valid : 0 < policy.max_attempts) where
  scan_result-total :
      (a : String) (calls : ℕ) (o : RetryResult ContractAnalysis)
      → Explains (env.analyze_node a) policy.max_attempts calls o
      → (r : NodeScanResult) × (scan_result env policy a o ≡ ok r) × ScanFacts a r
  unfolding scan_result
  scan_result-total a calls (success x k) h = (_, refl, (refl, inl refl))
  scan_result-total a calls (exhausted e) h = (_, refl, (refl, inr refl))
  scan_result-total a calls assertion_failed h = absurd h

  scan_total : (a : String) → (r : NodeScanResult) × (scan env policy a ≡ ok r) × ScanFacts a r
  unfolding scan
  scan_total a =
      scan_result-total a (execute_with_retry (env.analyze_node a) policy).calls
        (execute_with_retry (env.analyze_node a) policy).result
        (execute_with_retry_lem (env.analyze_node a) policy valid).0

  pub run_batch_total :
      (ready : List String)
      → (rs : List NodeScanResult) × (run_batch (scan env policy) ready ≡ ok rs)
        × BatchFacts ready rs
  unfolding map_result
  run_batch_total [] = ([], refl, tt)
  run_batch_total (a ∷ ready) =
      let (r, got, facts) = scan_total a in
      let (rs, rest, more) = run_batch_total ready in (r ∷ rs, rw (got, rest), (facts, more))
