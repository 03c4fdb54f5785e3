-- ===== src/Reanalysis/Run.antt =====
-- `ReanalysisOrchestrator.run` of continuous/reanalysis/orchestrator.py. The executor of a module
-- is an argument, with the time that the run takes.
pub mod Outcome
use chain_sentinel.Base.{
  ℕ, String, Option, none, some, List, [], ◌∷◌, ◌==◌, if◌then◌else◌, length, lower, occurs,
  after_colon, occurs,
}
use chain_sentinel.Evidence.Models.{RiskEvidence}
use chain_sentinel.RiskDelta.Classifier.{EvidenceDelta}
use chain_sentinel.Risk.Evidence.{merge_evidence}
use chain_sentinel.Watch.Subscription.{Texts}
use chain_sentinel.Change.Models.{ChangeDetectionResult}
use chain_sentinel.Reanalysis.Models.{
  ReanalysisModule, ExecutionPlan, ReanalysisMetrics, ReanalysisResult,
}
use chain_sentinel.Reanalysis.Plan.{plan}
use chain_sentinel.Reanalysis.Delta.{build}

-- The context without the bundles, which only an executor reads.
pub record ReanalysisExecutionContext : Type 0 where
  pub watch_id : String
  pub chain_id : ℕ
  pub root_address : String
  pub affected_contracts : List String
  pub change_result : ChangeDetectionResult

abbrev pub Executor : Type 0
Executor = ReanalysisModule → ReanalysisExecutionContext → List RiskEvidence

-- `root_address or watch_id.split(":", 1)[-1]`, in lower case
-- `text.split(":", 1)[-1]`: the whole text where there is no colon.
abbrev pub last_part : String → String
last_part s = if occurs ":" s then after_colon s else s

abbrev pub root_of : Option String → String → String
root_of none watch = lower (last_part watch)
root_of (some s) watch = if s == "" then lower (last_part watch) else lower s

unfoldable pub build_metrics :
    ExecutionPlan → List ReanalysisModule → EvidenceDelta → ℕ → ReanalysisMetrics
build_metrics planned executed delta duration_ms = record {
  modules_planned = length planned.modules;
  modules_executed = length executed;
  duration_ms = duration_ms;
  evidence_added_count = length delta.added;
  evidence_removed_count = length delta.removed;
  evidence_updated_count = length delta.updated;
}

-- The loop over the modules: those that ran, and their evidence.
unfoldable pub execute_all :
    Executor
    → ReanalysisExecutionContext
    → List ReanalysisModule
    → List ReanalysisModule × List (List RiskEvidence)
execute_all execute context [] = ([], [])
execute_all execute context (m ∷ modules) =
    let evidence = execute m context in
    let (executed, groups) = execute_all execute context modules in
    (m ∷ executed, evidence ∷ groups)

unfoldable pub run :
    Texts
    → Executor
    → ChangeDetectionResult
    → List RiskEvidence
    → ℕ
    → Option String
    → ℕ
    → ReanalysisResult
unfolding plan execute_all merge_evidence build build_metrics lower after_colon occurs
run texts execute change_result previous_evidence chain_id root_address duration_ms =
    let planned = plan texts change_result in
    let context : ReanalysisExecutionContext = record {
      watch_id = change_result.watch_id;
      chain_id = chain_id;
      root_address = root_of root_address change_result.watch_id;
      affected_contracts = planned.affected_contracts;
      change_result = change_result;
    } in
    let (executed, groups) = execute_all execute context planned.modules in
    let new_evidence = merge_evidence groups in
    let delta = build previous_evidence new_evidence in
    record {
      watch_id = change_result.watch_id;
      execution_plan = planned;
      executed_modules = executed;
      new_evidence = new_evidence;
      evidence_delta = delta;
      metrics = build_metrics planned executed delta duration_ms;
      change_result = change_result;
    }
