-- ===== src/RiskDelta/Engine.antt =====
-- continuous/risk_delta/delta_engine.py
pub mod Report
use chain_sentinel.Base.{String, map, ◌==◌, if◌then◌else◌, length, sorted, Result, ok, err, ℤ}
use chain_sentinel.Evidence.Models.{
  RiskEvidence, RiskEvidenceBundle, RiskSummary, RiskDelta, EvidenceSummary, RiskDeltaReport,
}
use chain_sentinel.Evidence.Severity.{evidence_signal}
use chain_sentinel.RiskDelta.Summary.{summarize_evidence, domains_for_evidence}
use chain_sentinel.RiskDelta.Classifier.{EvidenceDelta, score_delta, classify}
use chain_sentinel.RiskDelta.Explainer.{changed_evidence, id_set, explain}

pub data ValueError : Type 0 where
  value_error : ValueError

unfoldable pub summarize_bundle : RiskEvidenceBundle → RiskSummary
unfolding summarize_evidence
summarize_bundle bundle = summarize_evidence bundle.watch_id bundle.evidence

module _ (amount_text : ℤ → String) where
  unfoldable pub build_evidence_summary : EvidenceDelta → EvidenceSummary
  unfolding changed_evidence id_set domains_for_evidence
  build_evidence_summary delta = record {
    added_count = length delta.added;
    removed_count = length delta.removed;
    updated_count = length delta.updated;
    affected_domains = domains_for_evidence (changed_evidence delta);
    contributing_signals = sorted (id_set (map evidence_signal (changed_evidence delta)));
  }

  unfoldable pub report_of :
      EvidenceDelta → RiskEvidenceBundle → RiskEvidenceBundle → RiskDeltaReport
  unfolding summarize_bundle score_delta classify explain build_evidence_summary
  report_of evidence_delta previous current =
      let previous_summary = summarize_bundle previous in
      let current_summary = summarize_bundle current in
      let trend = classify previous_summary current_summary evidence_delta in
      record {
        watch_id = previous.watch_id;
        delta = record {
          watch_id = previous.watch_id;
          previous_summary = previous_summary;
          current_summary = current_summary;
          score_delta = score_delta previous_summary current_summary evidence_delta;
          added = evidence_delta.added;
          removed = evidence_delta.removed;
          updated = evidence_delta.updated;
          trend = trend;
        };
        previous_summary = previous_summary;
        current_summary = current_summary;
        trend = trend;
        explanation = explain amount_text trend previous_summary current_summary evidence_delta;
        evidence_summary = build_evidence_summary evidence_delta;
      }

  unfoldable pub compute :
      EvidenceDelta → (previous current : RiskEvidenceBundle) → Result ValueError RiskDeltaReport
  unfolding report_of
  compute evidence_delta previous current =
      if previous.watch_id == current.watch_id
      then ok (report_of evidence_delta previous current)
      else err value_error
