-- ===== src/RiskDelta/Engine/Report.antt =====
-- What a report says of the evidence that it was computed from.
use chain_sentinel.Base.{
  String, ◌≡◌, refl, ◌≢◌, ◌⊎◌, inl, inr, ◌||◌, List, [], ◌∷◌, ◌++◌, map, arith, ◌==◌, eq_iff,
  if◌then◌else◌, Bool-cases, mem, mem-add, mem-sorted, ok, err, ℤ,
}
use chain_sentinel.Evidence.Models.{
  RiskEvidence, RiskEvidenceBundle, RiskDeltaReport, increased, decreased, unchanged,
}
use chain_sentinel.RiskDelta.Classifier.{EvidenceDelta, lt_int}
use chain_sentinel.RiskDelta.Classifier.Trend.{classify_lem}
use chain_sentinel.RiskDelta.Explainer.{changed_evidence, id_set, contributing_ids, explain}
use chain_sentinel.RiskDelta.Engine.{value_error, summarize_bundle, report_of, compute}

mem-id_set : (k : String) (xs : List String) → mem k (id_set xs) ≡ mem k xs
unfolding id_set mem
mem-id_set k [] = refl
mem-id_set k (x ∷ xs) = ground (arith, mem-add k x (id_set xs), mem-id_set k xs)

mem-ids-append :
    (k : String) (xs ys : List RiskEvidence)
    → mem k (map (λ e. e.id) (xs ++ ys))
      ≡ (mem k (map (λ e. e.id) xs) || mem k (map (λ e. e.id) ys))
unfolding mem
mem-ids-append k [] ys = refl
mem-ids-append k (x ∷ xs) ys = ground (arith, mem-ids-append k xs ys)

mem-ids-after :
    (k : String) (us : List (RiskEvidence × RiskEvidence))
    → mem k (map (λ e. e.id) (map (λ u. u.1) us)) ≡ mem k (map (λ u. u.1.id) us)
unfolding mem
mem-ids-after k [] = refl
mem-ids-after k (u ∷ us) = ground (arith, mem-ids-after k us)

mem-contributing_ids :
    (delta : EvidenceDelta) (k : String)
    → mem k (contributing_ids delta) ≡ (
        mem k (map (λ e. e.id) delta.added)
        || (mem k (map (λ e. e.id) delta.removed) || mem k (map (λ u. u.1.id) delta.updated)))
unfolding contributing_ids changed_evidence
mem-contributing_ids delta k =
    rw (mem-sorted, mem-id_set, mem-ids-append, mem-ids-append, mem-ids-after) (ground arith)

-- The trend and the ids of a report, from the bundles and the delta that it is about.
pub record Reports (delta : EvidenceDelta) (previous current : RiskEvidenceBundle)
    (report : RiskDeltaReport) : Type 0 where
  pub watch_id : report.watch_id ≡ current.watch_id
  pub trend : report.trend ≡ (
      if lt_int (summarize_bundle previous).total_score (summarize_bundle current).total_score
      then increased
      else if lt_int (summarize_bundle current).total_score (summarize_bundle previous).total_score
      then decreased
      else unchanged)
  pub same_trend : report.delta.trend ≡ report.trend
  pub contributing :
      (k : String)
      → mem k report.explanation.contributing_evidence_ids ≡ (
          mem k (map (λ e. e.id) delta.added)
          || (mem k (map (λ e. e.id) delta.removed) || mem k (map (λ u. u.1.id) delta.updated)))

report_of-Reports :
    (amount_text : ℤ → String) (delta : EvidenceDelta) (previous current : RiskEvidenceBundle)
    → previous.watch_id ≡ current.watch_id
    → Reports delta previous current (report_of amount_text delta previous current)
unfolding report_of explain
report_of-Reports amount_text delta previous current same = record {
  watch_id = same;
  trend = (classify_lem (summarize_bundle previous) (summarize_bundle current) delta).1;
  same_trend = refl;
  contributing = mem-contributing_ids delta;
}

-- For bundles of two watches the engine raises; for two bundles of one watch it returns a report
-- for that watch, whose trend says which total is larger, and whose explanation lists exactly the
-- ids of the evidence that was added, removed or updated.
pub compute_lem :
    (amount_text : ℤ → String) (delta : EvidenceDelta) (previous current : RiskEvidenceBundle)
    → ((previous.watch_id ≢ current.watch_id)
        × (compute amount_text delta previous current ≡ err value_error))
      ⊎ (report : RiskDeltaReport) × (compute amount_text delta previous current ≡ ok report)
        × Reports delta previous current report
unfolding compute
compute_lem amount_text delta previous current =
    elim (Bool-cases (previous.watch_id == current.watch_id)) [
      | inl h ↦ inr (
        report_of amount_text delta previous current,
        rw h refl,
        report_of-Reports amount_text delta previous current
            ((eq_iff previous.watch_id current.watch_id).0 h),
      )
      | inr h ↦
          inl (
            (λ same. absurd (ground (arith, eq_iff previous.watch_id current.watch_id))),
            rw h refl,
          )
    ]
