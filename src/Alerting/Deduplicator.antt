-- ===== src/Alerting/Deduplicator.antt =====
-- continuous/alerting/deduplicator.py
use chain_sentinel.Base.{
  String, Bool, not, List, [], ◌∷◌, ◌==◌, if◌then◌else◌, filter, text_le, sort_by, sorted, mem, add,
  ◌⧺◌, join, pair_le, filter, join,
}
use chain_sentinel.Evidence.Models.{severity_value}
use chain_sentinel.Alerting.Models.{AlertTexts, AlertRuleType, SecurityAlert, rule_value}

unfoldable pub build_alert_id : AlertTexts → String → AlertRuleType → List String → String
build_alert_id texts watch_id rule_type evidence_ids =
    watch_id
    ⧺ ":alert:"
    ⧺ rule_value rule_type
    ⧺ ":"
    ⧺ texts.digest
        (join "|" (watch_id ∷ rule_value rule_type ∷ join "," (sorted evidence_ids) ∷ []))

-- `_alert_sort_key`
abbrev pub alert_le : SecurityAlert → SecurityAlert → Bool
alert_le a b =
    if severity_value a.severity == severity_value b.severity
    then pair_le (rule_value a.rule_type, a.alert_id) (rule_value b.rule_type, b.alert_id)
    else text_le (severity_value a.severity) (severity_value b.severity)

-- The alerts, sorted, whose id has not been seen, and those whose id has.
unfoldable pub split_seen :
    List String → List SecurityAlert → List SecurityAlert × List SecurityAlert
split_seen seen [] = ([], [])
split_seen seen (alert ∷ alerts) =
    let skipped = split_seen seen alerts in
    let kept = split_seen (add alert.alert_id seen) alerts in
    if mem alert.alert_id seen then (skipped.0, alert ∷ skipped.1) else (alert ∷ kept.0, kept.1)

unfoldable pub deduplicate_batch : List SecurityAlert → List SecurityAlert × List SecurityAlert
unfolding split_seen
deduplicate_batch candidates = split_seen [] (sort_by alert_le candidates)

-- The alerts that are new, and those whose id is recent.
unfoldable pub filter_recent :
    List SecurityAlert → List String → List SecurityAlert × List SecurityAlert
filter_recent alerts recent_alert_ids = (
  filter (λ a. not (mem a.alert_id recent_alert_ids)) alerts,
  filter (λ a. mem a.alert_id recent_alert_ids) alerts,
)
