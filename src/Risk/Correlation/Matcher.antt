-- ===== src/Risk/Correlation/Matcher.antt =====
-- blockchain/risk/correlation/matcher.py and engine.py.
pub mod Complete
use chain_sentinel.Base.{
  String, Bool, true, false, ◌&&◌, none, some, List, [], ◌∷◌, ◌==◌, if◌then◌else◌, length, any, mem,
  add,
}
use chain_sentinel.Evidence.Models.{RiskEvidence}
use chain_sentinel.Risk.Correlation.{CorrelatedRiskFinding, CorrelationResult}
use chain_sentinel.Risk.Correlation.Index.{EvidenceIndex, evidence_index}
use chain_sentinel.Risk.Correlation.Registry.{CorrelationRuleHandler, Registry, all_handlers}

abbrev pub same_texts : List String → List String → Bool
same_texts [] [] = true
same_texts (x ∷ xs) (y ∷ ys) = x == y && same_texts xs ys
same_texts _ _ = false

-- `fingerprint in seen_fingerprints`
abbrev pub mem_texts : List String → List (List String) → Bool
mem_texts xs seen = any (same_texts xs) seen

-- The loop of `match`, from the sets of rule ids and fingerprints that are seen.
unfoldable pub match_handlers :
    EvidenceIndex
    → List CorrelationRuleHandler
    → List String
    → List (List String)
    → List CorrelatedRiskFinding
match_handlers index [] rule_ids fingerprints = []
match_handlers index (h ∷ handlers) rule_ids fingerprints =
    let rest = match_handlers index handlers rule_ids fingerprints in
    if mem h.definition.id rule_ids then rest else elim (h.evaluate index) [
      | none ↦ rest
      | some finding ↦
          if mem_texts finding.evidence_ids fingerprints
          then rest
          else finding
            ∷ match_handlers index handlers (add h.definition.id rule_ids)
                (finding.evidence_ids ∷ fingerprints)
    ]

unfoldable pub match : List RiskEvidence → List CorrelationRuleHandler → List CorrelatedRiskFinding
unfolding evidence_index match_handlers
match evidence handlers = match_handlers (evidence_index evidence) handlers [] []

-- `RiskCorrelationEngine.correlate`
unfoldable pub correlate : Registry → List RiskEvidence → CorrelationResult
unfolding match all_handlers
correlate registry evidence =
    let handlers = all_handlers registry in
    record {
      findings = match evidence handlers;
      evidence_count = length evidence;
      rules_evaluated = length handlers;
    }
