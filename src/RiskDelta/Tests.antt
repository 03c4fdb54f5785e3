-- ===== src/RiskDelta/Tests.antt =====
-- A posture that gets worse by one item of evidence.
use chain_sentinel.Base.{
  ℕ, String, ◌≡◌, refl, ◌≢◌, ◌⊎◌, List, [], ◌∷◌, ◌==◌, if◌then◌else◌, any, mem, get, ok, err, pos,
  ◌+ℤ◌, ◌-ℤ◌,
}
use chain_sentinel.Evidence.Models.{
  EvidenceCategory, ConfidenceLevel, EvidenceSource, EvidenceSeverity, RiskEvidence,
  RiskEvidenceBundle, RiskDeltaReport, RiskSummary, increased, decreased, unchanged,
}
use chain_sentinel.Evidence.Severity.{intelligence_domain}
use chain_sentinel.RiskDelta.Summary.{summarize_evidence}
use chain_sentinel.RiskDelta.Summary.Bounds.{IsLargest, summarize_evidence_lem}
use chain_sentinel.RiskDelta.Classifier.{EvidenceDelta, score_delta, classify, lt_int}
use chain_sentinel.RiskDelta.Engine.{compute, value_error}
use chain_sentinel.RiskDelta.Engine.Report.{Reports, compute_lem}
use chain_sentinel.RiskDelta.Classifier.Trend.{classify_lem}

abbrev item : String → EvidenceSeverity → ℕ → RiskEvidence
item id severity score = record {
  id = id;
  source = EvidenceSource.governance;
  category = EvidenceCategory.authority;
  severity = severity;
  score = pos score;
  confidence = ConfidenceLevel.low;
  reason = "r";
  metadata = [];
}

abbrev old_evidence : List RiskEvidence
old_evidence = item "a" EvidenceSeverity.low 500 ∷ []

abbrev new_evidence : List RiskEvidence
new_evidence = item "a" EvidenceSeverity.low 500 ∷ item "b" EvidenceSeverity.high 2000 ∷ []

abbrev previous : RiskSummary
previous = summarize_evidence "w" old_evidence

abbrev current : RiskSummary
current = summarize_evidence "w" new_evidence

abbrev delta : EvidenceDelta
delta = record { added = item "b" EvidenceSeverity.high 2000 ∷ []; removed = []; updated = [] }

classify_runs : classify previous current delta ≡ increased
unfolding classify ◌+ℤ◌ ◌-ℤ◌ get summarize_evidence
classify_runs = refl

classify_example :
    (score_delta previous current delta ≡ current.total_score -ℤ previous.total_score)
    × (classify previous current delta ≡ (
        if lt_int previous.total_score current.total_score
        then increased
        else if lt_int current.total_score previous.total_score
        then decreased
        else unchanged))
classify_example = classify_lem previous current delta

summarize_evidence_example :
    IsLargest (summarize_evidence "w" new_evidence).max_severity new_evidence
    × ((k : String)
        → mem k (summarize_evidence "w" new_evidence).intelligence_domains
          ≡ any (λ e. k == intelligence_domain e.source) new_evidence)
summarize_evidence_example = summarize_evidence_lem "w" new_evidence

abbrev old_bundle : RiskEvidenceBundle
old_bundle = record { watch_id = "w"; evidence = old_evidence; captured_at = 1 }

abbrev new_bundle : RiskEvidenceBundle
new_bundle = record { watch_id = "w"; evidence = new_evidence; captured_at = 2 }

compute_runs :
    compute (λ z. "0") delta old_bundle (record new_bundle { watch_id = "v" }) ≡ err value_error
unfolding compute
compute_runs = refl

compute_example :
    ((old_bundle.watch_id ≢ new_bundle.watch_id)
      × (compute (λ z. "0") delta old_bundle new_bundle ≡ err value_error))
    ⊎ (report : RiskDeltaReport) × (compute (λ z. "0") delta old_bundle new_bundle ≡ ok report)
      × Reports delta old_bundle new_bundle report
compute_example = compute_lem (λ z. "0") delta old_bundle new_bundle
