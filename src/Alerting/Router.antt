-- ===== src/Alerting/Router.antt =====
-- `AlertRouter` of continuous/alerting/router.py. Its providers are not implemented.
use chain_sentinel.Base.{List, [], ◌∷◌, map, sort_by}
use chain_sentinel.Evidence.Models.{EvidenceSeverity, critical, high, severity_value}
use chain_sentinel.Alerting.Models.{
  NotificationChannel, pagerduty, slack, email, siem, webhook, SecurityAlert, RoutingDecision,
  rule_value,
}
use chain_sentinel.Alerting.Suppression.{severity_le}

abbrev pub channels_for_severity : EvidenceSeverity → List NotificationChannel
channels_for_severity critical = pagerduty ∷ slack ∷ email ∷ siem ∷ []
channels_for_severity high = slack ∷ email ∷ webhook ∷ []
channels_for_severity _ = webhook ∷ email ∷ []

abbrev pub decision : SecurityAlert → RoutingDecision
decision alert = record {
  alert_id = alert.alert_id;
  channels = channels_for_severity alert.severity;
  priority = severity_value alert.severity;
  metadata =
      ("rule_type", rule_value alert.rule_type)
      ∷ ("affected_protocol", alert.affected_protocol)
      ∷ [];
}

unfoldable pub route : List SecurityAlert → List RoutingDecision
route alerts = map decision (sort_by severity_le alerts)
