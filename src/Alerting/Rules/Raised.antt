-- ===== src/Alerting/Rules/Raised.antt =====
-- What the rules of continuous/alerting/alert_rules.py raise.
use chain_sentinel.Base.{
  ℕ, ◌≤◌, max, String, ◌≡◌, refl, Bool, true, false, not, List, [], ◌∷◌, arith, if◌then◌else◌, All,
  All-append, All-append,
}
use chain_sentinel.Evidence.Models.{
  is_increased, EvidenceSeverity, critical, high, RiskEvidence, RiskDeltaReport, is_critical,
}
use chain_sentinel.Evidence.Severity.{severity_rank}
use chain_sentinel.Alerting.Models.{AlertTexts, AlertRuleType, pending, SecurityAlert}
use chain_sentinel.Alerting.Rules.{
  max_severity, fired, escalated, risk_increase_tests, added_evidence_tests, build_alert,
  risk_increase_rules, rules_for_added_evidence, rules_for_updated_evidence, added_rules,
  updated_rules, evidence_rules, evaluate,
}

-- The rank of the more severe of two severities is the larger of their ranks.
max_severity-rank :
    (a b : EvidenceSeverity)
    → severity_rank (max_severity a b) ≡ max (severity_rank a) (severity_rank b)
unfolding max_severity
max_severity-rank a EvidenceSeverity.info = ground arith
max_severity-rank a EvidenceSeverity.low = ground arith
max_severity-rank a EvidenceSeverity.medium = ground arith
max_severity-rank a EvidenceSeverity.high = ground arith
max_severity-rank a EvidenceSeverity.critical = ground arith

-- A pending alert of this moment, at least as severe as high.
pub record Raised (generated_at : ℕ) (a : SecurityAlert) : Type 0 where
  pub severe : 3 ≤ severity_rank a.severity
  pub new : a.acknowledgement_state ≡ pending
  pub now : a.timestamp ≡ generated_at

All-fired :
    (P : SecurityAlert → Type 0) (rules : List (Bool × SecurityAlert))
    → All (λ r. P r.1) rules
    → All P (fired rules)
unfolding fired
All-fired P [] ps = tt
All-fired P ((true, a) ∷ rules) ps = (ps.0, All-fired P rules ps.1)
All-fired P ((false, a) ∷ rules) ps = All-fired P rules ps.1

All-unless :
    (P : SecurityAlert → Type 0) (guard : Bool) (xs : List SecurityAlert)
    → All P xs
    → All P (if guard then [] else xs)
All-unless P true xs ps = tt
All-unless P false xs ps = ps

module _ (texts : AlertTexts) (report : RiskDeltaReport) (generated_at : ℕ) where
  build_alert-Raised :
      (r : AlertRuleType) (severity : EvidenceSeverity) (title summary : String) (es : List String)
      → 3 ≤ severity_rank severity
      → Raised generated_at (build_alert texts report generated_at r severity title summary es)
  unfolding build_alert
  build_alert-Raised r severity title summary es h = record { severe = h; new = refl; now = refl }

  risk_increase_rules-Raised :
      All (Raised generated_at) (risk_increase_rules texts report generated_at)
  unfolding risk_increase_rules risk_increase_tests
  risk_increase_rules-Raised =
      let P = Raised generated_at in
      let tests = risk_increase_tests texts report generated_at in
      All-unless P (not (is_increased report.trend)) (fired tests) (
        All-fired P tests (
          build_alert-Raised _ critical _ _ _ (ground arith),
          (build_alert-Raised _ high _ _ _ (ground arith), tt),
        ))

  rules_for_added_evidence-Raised :
      (e : RiskEvidence)
      → All (Raised generated_at) (rules_for_added_evidence texts report generated_at e)
  unfolding rules_for_added_evidence added_evidence_tests
  rules_for_added_evidence-Raised e =
      let high_at_least = max_severity-rank e.severity high in
      let critical_at_least = max_severity-rank e.severity critical in
      All-fired (Raised generated_at) (added_evidence_tests texts report generated_at e) (
        build_alert-Raised _ (critical) _ _ _ (ground arith),
        (
          build_alert-Raised _ (max_severity e.severity high) _ _ _ (ground arith),
          (
            build_alert-Raised _ (max_severity e.severity critical) _ _ _ (ground arith),
            (
              build_alert-Raised _ (max_severity e.severity high) _ _ _ (ground arith),
              (
                build_alert-Raised _ (max_severity e.severity high) _ _ _ (ground arith),
                (build_alert-Raised _ (max_severity e.severity high) _ _ _ (ground arith), tt),
              ),
            ),
          ),
        ),
      )

  rules_for_updated_evidence-Raised :
      (before after : RiskEvidence)
      → All
          (Raised generated_at)
          (rules_for_updated_evidence texts report generated_at before after)
  unfolding rules_for_updated_evidence escalated
  rules_for_updated_evidence-Raised before after =
      let P = Raised generated_at in
      let tests : List (Bool × SecurityAlert) =
        (not (is_critical before.severity), escalated texts report generated_at after) ∷ [] in
      All-unless P (not (is_critical after.severity)) (fired tests)
        (All-fired P tests (build_alert-Raised _ critical _ _ _ (ground arith), tt))

  added_rules-Raised :
      (es : List RiskEvidence)
      → All (Raised generated_at) (added_rules texts report generated_at es)
  unfolding added_rules
  added_rules-Raised [] = tt
  added_rules-Raised (e ∷ es) =
      All-append (Raised generated_at) (rules_for_added_evidence texts report generated_at e)
        (added_rules texts report generated_at es) (rules_for_added_evidence-Raised e)
        (added_rules-Raised es)

  updated_rules-Raised :
      (es : List (RiskEvidence × RiskEvidence))
      → All (Raised generated_at) (updated_rules texts report generated_at es)
  unfolding updated_rules
  updated_rules-Raised [] = tt
  updated_rules-Raised ((before, after) ∷ es) =
      All-append (Raised generated_at)
        (rules_for_updated_evidence texts report generated_at before after)
        (updated_rules texts report generated_at es)
        (rules_for_updated_evidence-Raised before after) (updated_rules-Raised es)

  -- Whatever the report, every alert that the rules raise is pending, carries the moment of the
  -- evaluation and is at least as severe as high.
  pub evaluate-Raised : All (Raised generated_at) (evaluate texts report generated_at)
  unfolding evaluate evidence_rules
  evaluate-Raised =
      All-append (Raised generated_at) (risk_increase_rules texts report generated_at)
        (evidence_rules texts report generated_at) risk_increase_rules-Raised
        (All-append (Raised generated_at) (added_rules texts report generated_at report.delta.added)
          (updated_rules texts report generated_at report.delta.updated)
          (added_rules-Raised report.delta.added) (updated_rules-Raised report.delta.updated))
