-- ===== src/Reanalysis/Run/Outcome.antt =====
-- What a re-analysis of detected changes comes to.
use chain_sentinel.Base.{
  ℕ, String, ◌≡◌, refl, sym, ap, ◌∙◌, inl, inr, Bool, ◌&&◌, ◌||◌, not, Option, List, [], ◌∷◌, ◌++◌,
  arith, Bool-cases, any, mem, Distinct,
}
use chain_sentinel.Evidence.Models.{RiskEvidence}
use chain_sentinel.Risk.Evidence.{merge_evidence}
use chain_sentinel.Risk.Evidence.Merged.{evidence_ids, concat, merge_evidence-first}
use chain_sentinel.Watch.Subscription.{Texts}
use chain_sentinel.Change.Models.{ChangeDetectionResult}
use chain_sentinel.Reanalysis.Models.{ReanalysisModule, ReanalysisResult, module_value}
use chain_sentinel.Reanalysis.Plan.{module_values, build_execution_plan, plan}
use chain_sentinel.Reanalysis.Plan.Selected.{asks, select-asks}
use chain_sentinel.Reanalysis.Delta.Exact.{IsDelta, build-IsDelta}
use chain_sentinel.Reanalysis.Run.{ReanalysisExecutionContext, Executor, root_of, execute_all, run}

execute_all-runs :
    (execute : Executor) (context : ReanalysisExecutionContext) (modules : List ReanalysisModule)
    → (execute_all execute context modules).0 ≡ modules
unfolding execute_all
execute_all-runs execute context [] = refl
execute_all-runs execute context (m ∷ modules) =
    ap (λ ms. m ∷ ms) (execute_all-runs execute context modules)

ids-append :
    (xs ys : List RiskEvidence) (k : String)
    → mem k (evidence_ids (xs ++ ys)) ≡ (mem k (evidence_ids xs) || mem k (evidence_ids ys))
unfolding mem
ids-append [] ys k = refl
ids-append (x ∷ xs) ys k = ground (arith, ids-append xs ys k)

execute_all-ids :
    (execute : Executor) (context : ReanalysisExecutionContext) (modules : List ReanalysisModule)
    (k : String)
    → mem k (evidence_ids (concat (execute_all execute context modules).1))
      ≡ any (λ m. mem k (evidence_ids (execute m context))) modules
unfolding execute_all mem
execute_all-ids execute context [] k = refl
execute_all-ids execute context (m ∷ modules) k = ground (
  arith,
  execute_all-ids execute context modules k,
  ids-append (execute m context) (concat (execute_all execute context modules).1) k,
)

-- The modules that the changes ask for, none if nothing changed.
abbrev pub wanted : ChangeDetectionResult → ReanalysisModule → Bool
wanted cr m = not cr.unchanged && any (asks m) cr.changes

pub record Reanalyzed (execute : Executor) (context : ReanalysisExecutionContext)
    (cr : ChangeDetectionResult) (previous : List RiskEvidence) (r : ReanalysisResult)
    : Type 0 where
  pub executed : r.executed_modules ≡ r.execution_plan.modules
  pub selected :
      (m : ReanalysisModule) → mem (module_value m) (module_values r.executed_modules) ≡ wanted cr m
  pub evidence :
      (k : String)
      → mem k (evidence_ids r.new_evidence)
        ≡ any (λ m. mem k (evidence_ids (execute m context))) r.executed_modules
  pub distinct : Distinct (evidence_ids r.new_evidence)
  pub delta : IsDelta previous r.new_evidence r.evidence_delta

plan-selected :
    (texts : Texts) (cr : ChangeDetectionResult) (m : ReanalysisModule)
    → mem (module_value m) (module_values (plan texts cr).modules) ≡ wanted cr m
unfolding plan build_execution_plan mem
plan-selected texts cr m = elim (Bool-cases cr.unchanged) [
  | inl e ↦ rw e refl
  | inr e ↦ rw e ((select-asks cr.changes).1 m)
]

-- The context that a run gives its modules.
abbrev pub context_of :
    Texts → ChangeDetectionResult → ℕ → Option String → ReanalysisExecutionContext
context_of texts cr chain_id root_address = record {
  watch_id = cr.watch_id;
  chain_id = chain_id;
  root_address = root_of root_address cr.watch_id;
  affected_contracts = (plan texts cr).affected_contracts;
  change_result = cr;
}

-- A re-analysis runs exactly the modules that a detected change asks for, none if nothing changed;
-- its new evidence has exactly the ids that these modules return, each once; and its delta compares
-- this with all of the previous evidence, so that what only other modules return is removed.
pub run-Reanalyzed :
    (texts : Texts) (execute : Executor) (cr : ChangeDetectionResult) (previous : List RiskEvidence)
    (chain_id : ℕ) (root_address : Option String) (duration_ms : ℕ)
    → Reanalyzed execute
        (context_of texts cr chain_id root_address)
        cr
        previous
        (run texts execute cr previous chain_id root_address duration_ms)
unfolding run
run-Reanalyzed texts execute cr previous chain_id root_address duration_ms =
    let context = context_of texts cr chain_id root_address in
    let modules = (plan texts cr).modules in
    let ran = execute_all-runs execute context modules in
    let groups = (execute_all execute context modules).1 in
    let (once, exact, first) = merge_evidence-first groups in
    record {
      executed = ran;
      selected =
          λ m. ap (λ ms. mem (module_value m) (module_values ms)) ran ∙ plan-selected texts cr m;
      evidence = λ k.
          exact k
          ∙ execute_all-ids execute context modules k
          ∙ sym (ap (any (λ m. mem k (evidence_ids (execute m context)))) ran);
      distinct = once;
      delta = build-IsDelta previous (merge_evidence groups);
    }
