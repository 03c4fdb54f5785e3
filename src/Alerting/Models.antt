-- ===== src/Alerting/Models.antt =====
-- continuous/alerting/models.py. A moment is a number of seconds.
use chain_sentinel.Base.{ℕ, String, Bool, true, List, Dict, ℤ, pos}
use chain_sentinel.Evidence.Models.{EvidenceSeverity, medium}

pub data AlertAcknowledgementState : Type 0 where
  pending acknowledged suppressed : AlertAcknowledgementState

pub data AlertRuleType : Type 0 where
  critical_risk_increase high_risk_increase governance_change implementation_change : AlertRuleType
  ownership_change treasury_change runtime_exploit_indicator new_critical_evidence : AlertRuleType

pub data NotificationChannel : Type 0 where
  email slack discord webhook pagerduty siem : NotificationChannel

pub record AlertPolicy : Type 0 where
  pub minimum_severity : EvidenceSeverity
  pub cooldown_seconds : ℤ
  pub suppress_duplicates : Bool
  pub respect_acknowledgements : Bool

-- `AlertPolicy()`
abbrev pub default_policy : AlertPolicy
default_policy = record {
  minimum_severity = medium;
  cooldown_seconds = pos 3600;
  suppress_duplicates = true;
  respect_acknowledgements = true;
}

-- A value of an alert's metadata.
pub data AlertValue : Type 0 where
  text : String → AlertValue
  flag : Bool → AlertValue

pub record SecurityAlert : Type 0 where
  pub alert_id : String
  pub severity : EvidenceSeverity
  pub title : String
  pub summary : String
  pub affected_protocol : String
  pub affected_contracts : List String
  pub evidence_references : List String
  pub timestamp : ℕ
  pub acknowledgement_state : AlertAcknowledgementState
  pub rule_type : AlertRuleType
  pub metadata : Dict AlertValue

pub record SuppressedAlert : Type 0 where
  pub alert_id : String
  pub rule_type : AlertRuleType
  pub reason : String
  pub candidate : SecurityAlert

pub record RoutingDecision : Type 0 where
  pub alert_id : String
  pub channels : List NotificationChannel
  pub priority : String
  pub metadata : Dict String

pub record AlertBatch : Type 0 where
  pub watch_id : String
  pub generated_alerts : List SecurityAlert
  pub suppressed_alerts : List SuppressedAlert
  pub routing : List RoutingDecision
  pub generated_at : ℕ

-- `rule_type.value`
abbrev pub rule_value : AlertRuleType → String
rule_value critical_risk_increase = "critical_risk_increase"
rule_value high_risk_increase = "high_risk_increase"
rule_value governance_change = "governance_change"
rule_value implementation_change = "implementation_change"
rule_value ownership_change = "ownership_change"
rule_value treasury_change = "treasury_change"
rule_value runtime_exploit_indicator = "runtime_exploit_indicator"
rule_value new_critical_evidence = "new_critical_evidence"

-- What the code takes from hashlib, datetime and decimal: the first 16 digits of a SHA-256, the
-- text of a moment and the text of an amount.
pub record AlertTexts : Type 0 where
  pub digest : String → String
  pub isoformat : ℕ → String
  pub amount_text : ℤ → String
