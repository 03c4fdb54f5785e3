-- ===== src/Reanalysis/Tests.antt =====
-- A change of the owner, after a scan of all modules: governance and threat run again.
use chain_sentinel.Base.{
  ℕ, String, ◌≡◌, refl, Bool, true, false, none, some, List, [], ◌∷◌, sort_by, mem, add, put, pos,
}
use chain_sentinel.Evidence.Models.{
  EvidenceSource, EvidenceCategory, EvidenceSeverity, ConfidenceLevel, RiskEvidence,
}
use chain_sentinel.Risk.Evidence.Merged.{evidence_ids}
use chain_sentinel.Watch.Subscription.{Texts}
use chain_sentinel.Change.Models.{ChangeType, ChangeSeverity, ChangeEvent, ChangeDetectionResult}
use chain_sentinel.Reanalysis.Models.{module_value}
use chain_sentinel.Reanalysis.Plan.{plan, module_values}
use chain_sentinel.Reanalysis.Delta.{build}
use chain_sentinel.Reanalysis.Delta.Exact.{IsDelta, build-IsDelta}
use chain_sentinel.Reanalysis.Run.{run, Executor}
use chain_sentinel.Reanalysis.Run.Outcome.{Reanalyzed, context_of, run-Reanalyzed}

abbrev item : String → ℕ → RiskEvidence
item id score = record {
  id = id;
  source = EvidenceSource.governance;
  category = EvidenceCategory.authority;
  severity = EvidenceSeverity.low;
  score = pos score;
  confidence = ConfidenceLevel.high;
  reason = "r";
  metadata = [];
}

abbrev event : ChangeEvent
event = record {
  event_id = "e";
  change_type = ChangeType.owner_changed;
  severity = ChangeSeverity.high;
  before = none;
  after = some "0xb";
  affected_contracts = "0xa" ∷ [];
  timestamp = 5;
  confidence = ConfidenceLevel.high;
  metadata = [];
}

abbrev result : List ChangeEvent → Bool → ChangeDetectionResult
result changes unchanged = record {
  watch_id = "1:0xA";
  baseline_snapshot_id = "s1";
  current_snapshot_id = "s2";
  detected_at = 5;
  changes = changes;
  unchanged = unchanged;
}

abbrev texts : Texts
texts = record { digest = λ s. s; isoformat = λ n. "t" }

-- Each module finds one item, with its name.
abbrev execute : Executor
execute = λ m context. item (module_value m) 500 ∷ []

abbrev previous : List RiskEvidence
previous = item "governance" 100 ∷ item "liquidity" 200 ∷ []

modules_run :
    module_values (plan texts (result (event ∷ []) false)).modules ≡ "governance" ∷ "threat" ∷ []
unfolding plan mem add
modules_run = refl

-- The evidence of the module that does not run again counts as removed.
removed_runs :
    evidence_ids
      (run texts execute (result (event ∷ []) false) previous 1 none 0).evidence_delta.removed
    ≡ "liquidity" ∷ []
unfolding run sort_by put mem add
removed_runs = refl

unchanged_runs :
    evidence_ids (run texts execute (result [] true) previous 1 none 0).evidence_delta.removed
    ≡ "governance" ∷ "liquidity" ∷ []
unfolding run sort_by put mem
unchanged_runs = refl

build-IsDelta_example :
    IsDelta previous (item "governance" 500 ∷ []) (build previous (item "governance" 500 ∷ []))
build-IsDelta_example = build-IsDelta previous (item "governance" 500 ∷ [])

run-Reanalyzed_example :
    Reanalyzed execute
      (context_of texts (result (event ∷ []) false) 1 none)
      (result (event ∷ []) false)
      previous
      (run texts execute (result (event ∷ []) false) previous 1 none 0)
run-Reanalyzed_example = run-Reanalyzed texts execute (result (event ∷ []) false) previous 1 none 0
