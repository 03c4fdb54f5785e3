-- ===== src/Alerting/Rules.antt =====
-- continuous/alerting/alert_rules.py
pub mod Raised
use chain_sentinel.Base.{
  ℕ, max, String, Bool, true, false, ◌&&◌, ◌||◌, not, List, [], ◌∷◌, ◌++◌, ◌==◌, if◌then◌else◌, any,
  lower, mem, ◌⧺◌, occurs, after_colon, ℤ, pos, le_int, occurs,
}
use chain_sentinel.Evidence.Models.{
  EvidenceSource, simulation, threat_surface, classification, proxy, EvidenceSeverity, critical,
  high, RiskEvidence, RiskDeltaReport, is_critical, is_high, is_increased, trend_value,
}
use chain_sentinel.Evidence.Severity.{
  severity_rank, severity_at, intelligence_domain, evidence_signal,
}
use chain_sentinel.Alerting.Models.{
  AlertTexts, AlertRuleType, critical_risk_increase, high_risk_increase, governance_change,
  implementation_change, ownership_change, treasury_change, runtime_exploit_indicator,
  new_critical_evidence, pending, SecurityAlert, AlertValue,
}
use chain_sentinel.Alerting.Deduplicator.{build_alert_id}

abbrev governance_signals : List String
governance_signals = "owner_changed" ∷ "admin_authority" ∷ "proxyadmin_owner" ∷ []

abbrev implementation_signals : List String
implementation_signals =
    "implementation_changed" ∷ "upgradeable" ∷ "implementation_exposed" ∷ "proxy_execution" ∷ []

abbrev ownership_signals : List String
ownership_signals = "owner_changed" ∷ "ownership_capability" ∷ "proxyadmin_owner" ∷ []

abbrev treasury_signals : List String
treasury_signals = "treasury_multisig" ∷ "treasury_change" ∷ []

abbrev runtime_signals : List String
runtime_signals =
    "runtime_exploit" ∷ "runtime_selfdestruct" ∷ "delegatecall_chain" ∷ "unexpected_external_call"
    ∷ "flash_loan_callback" ∷ "state_transition_observed" ∷ []

abbrev high_score_delta : ℤ
high_score_delta = pos 2000

abbrev critical_score_delta : ℤ
critical_score_delta = pos 4000

-- `_matches`
unfoldable pub matches : String → List String → Bool
unfolding lower mem occurs
matches signal candidates =
    let normalized = lower signal in
    mem normalized candidates || any (λ token. occurs token normalized) candidates

unfoldable pub max_severity : EvidenceSeverity → EvidenceSeverity → EvidenceSeverity
max_severity current minimum = severity_at (max (severity_rank current) (severity_rank minimum))

-- `_protocol_context`
unfoldable pub protocol_context : String → String × List String
unfolding occurs after_colon lower
protocol_context watch_id =
    if occurs ":" watch_id then (watch_id, lower (after_colon watch_id) ∷ []) else (watch_id, [])

abbrev pub is_proxy : EvidenceSource → Bool
is_proxy proxy = true
is_proxy _ = false

-- The sources that the runtime rule is for.
abbrev pub is_runtime : EvidenceSource → Bool
is_runtime simulation = true
is_runtime threat_surface = true
is_runtime classification = true
is_runtime _ = false

-- The alerts whose test holds: each is an `if` that appends to the list.
unfoldable pub fired : List (Bool × SecurityAlert) → List SecurityAlert
fired [] = []
fired ((test, alert) ∷ rules) = if test then alert ∷ fired rules else fired rules

module _ (texts : AlertTexts) (report : RiskDeltaReport) (generated_at : ℕ) where
  -- `_build_alert`
  unfoldable pub build_alert :
      AlertRuleType → EvidenceSeverity → (title summary : String) → List String → SecurityAlert
  unfolding protocol_context build_alert_id
  build_alert rule_type severity title summary evidence_ids =
      let context = protocol_context report.watch_id in
      record {
        alert_id = build_alert_id texts report.watch_id rule_type evidence_ids;
        severity = severity;
        title = title;
        summary = summary;
        affected_protocol = context.0;
        affected_contracts = context.1;
        evidence_references = evidence_ids;
        timestamp = generated_at;
        acknowledgement_state = pending;
        rule_type = rule_type;
        metadata =
            ("watch_id", AlertValue.text report.watch_id)
            ∷ ("trend", AlertValue.text (trend_value report.trend))
            ∷ ("score_delta", AlertValue.text (texts.amount_text report.delta.score_delta))
            ∷ [];
      }

  -- The second rule is the `elif` of the first.
  unfoldable pub risk_increase_tests : List (Bool × SecurityAlert)
  unfolding build_alert
  risk_increase_tests =
      let headline = report.explanation.headline in
      let ids = report.explanation.contributing_evidence_ids in
      let is_worst =
        le_int critical_score_delta report.delta.score_delta
        || is_critical report.current_summary.max_severity in
      let is_bad =
        le_int high_score_delta report.delta.score_delta
        || is_high report.current_summary.max_severity in
      (
        is_worst,
        build_alert critical_risk_increase critical "Critical risk posture increase detected"
            headline ids,
      )
      ∷ (
        not is_worst && is_bad,
        build_alert high_risk_increase high "High risk posture increase detected" headline ids,
      )
      ∷ []

  unfoldable pub risk_increase_rules : List SecurityAlert
  unfolding risk_increase_tests fired
  risk_increase_rules = if not (is_increased report.trend) then [] else fired risk_increase_tests

  unfoldable pub added_evidence_tests : RiskEvidence → List (Bool × SecurityAlert)
  unfolding build_alert evidence_signal matches max_severity
  added_evidence_tests evidence =
      let signal = evidence_signal evidence in
      let alert = λ (rule_type : AlertRuleType) (severity : EvidenceSeverity) (title : String).
        build_alert rule_type severity title evidence.reason (evidence.id ∷ []) in
      let raised = max_severity evidence.severity in
      (
        is_critical evidence.severity,
        alert new_critical_evidence critical ("New critical evidence detected: " ⧺ signal),
      )
      ∷ (
        matches signal governance_signals || intelligence_domain evidence.source == "governance",
        alert governance_change (raised high) "Governance change detected",
      )
      ∷ (
        matches signal implementation_signals || is_proxy evidence.source,
        alert implementation_change (raised critical) "Implementation change detected",
      )
      ∷ (
        matches signal ownership_signals,
        alert ownership_change (raised high) "Ownership change detected",
      )
      ∷ (
        matches signal treasury_signals || occurs "treasury" signal,
        alert treasury_change (raised high) "Treasury change detected",
      )
      ∷ (
        matches signal runtime_signals || is_runtime evidence.source,
        alert runtime_exploit_indicator (raised high) "Runtime exploit indicator detected",
      )
      ∷ []

  unfoldable pub rules_for_added_evidence : RiskEvidence → List SecurityAlert
  unfolding added_evidence_tests fired
  rules_for_added_evidence evidence = fired (added_evidence_tests evidence)

  unfoldable pub escalated : RiskEvidence → SecurityAlert
  unfolding build_alert evidence_signal
  escalated after =
      build_alert new_critical_evidence critical
        ("Evidence escalated to critical: " ⧺ evidence_signal after) after.reason (after.id ∷ [])

  unfoldable pub rules_for_updated_evidence : RiskEvidence → RiskEvidence → List SecurityAlert
  unfolding escalated fired
  rules_for_updated_evidence before after =
      if not (is_critical after.severity)
      then []
      else fired ((not (is_critical before.severity), escalated after) ∷ [])

  unfoldable pub added_rules : List RiskEvidence → List SecurityAlert
  unfolding rules_for_added_evidence
  added_rules [] = []
  added_rules (e ∷ es) = rules_for_added_evidence e ++ added_rules es

  unfoldable pub updated_rules : List (RiskEvidence × RiskEvidence) → List SecurityAlert
  unfolding rules_for_updated_evidence
  updated_rules [] = []
  updated_rules ((before, after) ∷ es) = rules_for_updated_evidence before after ++ updated_rules es

  unfoldable pub evidence_rules : List SecurityAlert
  unfolding added_rules updated_rules
  evidence_rules = added_rules report.delta.added ++ updated_rules report.delta.updated

  unfoldable pub evaluate : List SecurityAlert
  unfolding risk_increase_rules evidence_rules
  evaluate = risk_increase_rules ++ evidence_rules
