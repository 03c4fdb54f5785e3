-- ===== src/RiskDelta/Explainer.antt =====
-- continuous/risk_delta/delta_explainer.py. The text of an amount is a parameter.
use chain_sentinel.Base.{
  String, Bool, true, false, List, [], ◌∷◌, ◌++◌, map, ltb, if◌then◌else◌, length, sorted, add, ◌⧺◌,
  ℤ, ◌-ℤ◌, ltb,
}
use chain_sentinel.Evidence.Models.{
  RiskEvidence, RiskSummary, RiskTrend, increased, decreased, unchanged, RiskDeltaExplanation,
  severity_value, trend_value,
}
use chain_sentinel.Evidence.Severity.{intelligence_domain, evidence_signal}
use chain_sentinel.RiskDelta.Summary.{score_contribution, domains_for_evidence}
use chain_sentinel.RiskDelta.Classifier.{EvidenceDelta}

-- `evidence_delta.added`, `removed` and what `updated` leads to, in this order.
unfoldable pub changed_evidence : EvidenceDelta → List RiskEvidence
changed_evidence delta = delta.added ++ delta.removed ++ map (λ e. e.1) delta.updated

abbrev pub is_unchanged : RiskTrend → Bool
is_unchanged unchanged = true
is_unchanged _ = false

-- `set(xs)`
unfoldable pub id_set : List String → List String
id_set [] = []
id_set (x ∷ xs) = add x (id_set xs)

unfoldable pub contributing_ids : EvidenceDelta → List String
unfolding changed_evidence id_set
contributing_ids delta = sorted (id_set (map (λ e. e.id) (changed_evidence delta)))

module _ (amount_text : ℤ → String) where
  unfoldable pub headline : RiskTrend → RiskSummary → RiskSummary → String
  headline increased previous current =
      "Protocol risk posture increased from "
      ⧺ amount_text previous.total_score
      ⧺ " to "
      ⧺ amount_text current.total_score
  headline decreased previous current =
      "Protocol risk posture decreased from "
      ⧺ amount_text previous.total_score
      ⧺ " to "
      ⧺ amount_text current.total_score
  headline unchanged previous current =
      "Protocol risk posture unchanged at " ⧺ amount_text current.total_score

  reason_of : (verb : String) → RiskEvidence → String
  reason_of verb e =
      verb
      ⧺ " "
      ⧺ intelligence_domain e.source
      ⧺ " evidence '"
      ⧺ evidence_signal e
      ⧺ "' ("
      ⧺ severity_value e.severity
      ⧺ ", score "
      ⧺ amount_text (score_contribution e)
      ⧺ ")"

  update_reason : RiskEvidence × RiskEvidence → String
  update_reason (before, after) =
      "Updated "
      ⧺ intelligence_domain after.source
      ⧺ " evidence '"
      ⧺ evidence_signal after
      ⧺ "' (score delta "
      ⧺ amount_text (score_contribution after -ℤ score_contribution before)
      ⧺ ")"

  unfoldable pub build_reasons : RiskTrend → EvidenceDelta → List String
  unfolding reason_of update_reason
  build_reasons trend delta =
      let reasons =
        map (reason_of "Added") delta.added
        ++ map (reason_of "Removed") delta.removed
        ++ map update_reason delta.updated in
      sorted (
        if ltb 0 (length reasons)
        then reasons
        else if is_unchanged trend
        then "No material risk evidence changes detected" ∷ []
        else [])

  unfoldable pub explain :
      RiskTrend → RiskSummary → RiskSummary → EvidenceDelta → RiskDeltaExplanation
  unfolding headline build_reasons contributing_ids changed_evidence domains_for_evidence
  explain trend previous current delta = record {
    headline = headline trend previous current;
    reasons = build_reasons trend delta;
    contributing_evidence_ids = contributing_ids delta;
    affected_domains = domains_for_evidence (changed_evidence delta);
    metadata =
        ("previous_total_score", amount_text previous.total_score)
        ∷ ("current_total_score", amount_text current.total_score)
        ∷ ("trend", trend_value trend)
        ∷ [];
  }
