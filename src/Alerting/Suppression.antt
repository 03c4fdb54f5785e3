-- ===== src/Alerting/Suppression.antt =====
-- continuous/alerting/suppression.py
use chain_sentinel.Base.{
  ℕ, ◌+◌, String, Bool, true, false, ◌&&◌, not, Option, none, some, List, [], ◌∷◌, ltb, leb,
  if◌then◌else◌, sort_by, Dict, get, put, ◌⧺◌, ℤ, pos, negsuc, pair_le, ltb,
}
use chain_sentinel.Evidence.Models.{EvidenceSeverity, severity_value}
use chain_sentinel.Evidence.Severity.{severity_rank}
use chain_sentinel.Alerting.Models.{
  AlertAcknowledgementState, acknowledged, AlertPolicy, SecurityAlert, SuppressedAlert, AlertTexts,
  flag,
}

abbrev pub is_acknowledged : AlertAcknowledgementState → Bool
is_acknowledged acknowledged = true
is_acknowledged _ = false

abbrev pub meets_minimum_severity : EvidenceSeverity → EvidenceSeverity → Bool
meets_minimum_severity current minimum = leb (severity_rank minimum) (severity_rank current)

-- `{item.alert_id: item for item in recent_alerts}`
unfoldable pub recent_index : List SecurityAlert → Dict SecurityAlert
recent_index alerts = index_from [] alerts
  where
    index_from : Dict SecurityAlert → List SecurityAlert → Dict SecurityAlert
    index_from d [] = d
    index_from d (a ∷ rest) = index_from (put d a.alert_id a) rest

-- The reason of a prior alert that is still cooling down: no cooldown is at most 0 seconds long.
abbrev cooldown_reason : AlertTexts → SecurityAlert → ℤ → ℕ → Option String
cooldown_reason texts prior (negsuc n) now = none
cooldown_reason texts prior (pos n) now =
    if ltb 0 n && ltb now (prior.timestamp + n)
    then some ("cooldown active until " ⧺ texts.isoformat (prior.timestamp + n))
    else none

unfoldable pub suppression_reason :
    AlertTexts → SecurityAlert → AlertPolicy → Dict SecurityAlert → ℕ → Option String
suppression_reason texts alert policy recent now =
    if not (meets_minimum_severity alert.severity policy.minimum_severity)
    then some ("below minimum severity threshold (" ⧺ severity_value policy.minimum_severity ⧺ ")")
    else elim (get recent alert.alert_id) [
      | none ↦ none
      | some prior ↦
          if policy.respect_acknowledgements && is_acknowledged prior.acknowledgement_state
          then some "alert acknowledged"
          else cooldown_reason texts prior policy.cooldown_seconds now
    ]

-- The alert with the reason why it is not sent.
abbrev pub suppressed_as : SecurityAlert → String → SuppressedAlert
suppressed_as alert reason = record {
  alert_id = alert.alert_id;
  rule_type = alert.rule_type;
  reason = reason;
  candidate = alert;
}

-- The key `(severity.value, alert_id)`
abbrev pub severity_le : SecurityAlert → SecurityAlert → Bool
severity_le a b =
    pair_le (severity_value a.severity, a.alert_id) (severity_value b.severity, b.alert_id)

unfoldable pub split_suppressed :
    (SecurityAlert → Option String) → List SecurityAlert → List SecurityAlert × List SuppressedAlert
split_suppressed reason_of [] = ([], [])
split_suppressed reason_of (alert ∷ alerts) =
    let (generated, suppressed) = split_suppressed reason_of alerts in
    elim (reason_of alert) [
      | some reason ↦ (generated, suppressed_as alert reason ∷ suppressed)
      | none ↦ (alert ∷ generated, suppressed)
    ]

unfoldable pub apply :
    AlertTexts
    → List SecurityAlert
    → AlertPolicy
    → (recent_alerts : List SecurityAlert) → ℕ
    → List SecurityAlert × List SuppressedAlert
unfolding split_suppressed suppression_reason recent_index
apply texts alerts policy recent_alerts now =
    split_suppressed (λ a. suppression_reason texts a policy (recent_index recent_alerts) now)
      (sort_by severity_le alerts)

unfoldable pub acknowledge : SecurityAlert → SecurityAlert
acknowledge alert = record alert {
  acknowledgement_state = acknowledged;
  metadata = put alert.metadata "acknowledged" (flag true);
}
