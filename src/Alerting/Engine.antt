-- ===== src/Alerting/Engine.antt =====
-- continuous/alerting/alert_engine.py
pub mod Partition
pub mod Promises
pub mod Critical
pub mod Fresh
use chain_sentinel.Base.{ℕ, Bool, Option, none, some, List, ◌++◌, map, text_le, sort_by}
use chain_sentinel.Evidence.Models.{RiskDeltaReport}
use chain_sentinel.Alerting.Models.{
  AlertTexts, AlertPolicy, default_policy, SecurityAlert, SuppressedAlert, AlertBatch,
}
use chain_sentinel.Alerting.Rules.{evaluate}
use chain_sentinel.Alerting.Deduplicator.{deduplicate_batch}
use chain_sentinel.Alerting.Suppression.{apply, suppressed_as, severity_le}
use chain_sentinel.Alerting.Router.{route}

-- `policy or AlertPolicy()`
abbrev pub policy_or_default : Option AlertPolicy → AlertPolicy
policy_or_default none = default_policy
policy_or_default (some p) = p

-- The order of the suppressed alerts, by their id.
abbrev pub suppressed_le : SuppressedAlert → SuppressedAlert → Bool
suppressed_le a b = text_le a.alert_id b.alert_id

unfoldable pub generate :
    AlertTexts
    → RiskDeltaReport
    → Option AlertPolicy
    → (recent_alerts : List SecurityAlert) → (timestamp : ℕ) → AlertBatch
unfolding evaluate deduplicate_batch apply route
generate texts report policy recent_alerts timestamp =
    let candidates = evaluate texts report timestamp in
    let (unique, batch_duplicates) = deduplicate_batch candidates in
    let (generated, suppressed) =
      apply texts unique (policy_or_default policy) recent_alerts timestamp in
    let duplicate_suppressed =
      map (λ a. suppressed_as a "duplicate alert identifier") batch_duplicates in
    let generated_sorted = sort_by severity_le generated in
    record {
      watch_id = report.watch_id;
      generated_alerts = generated_sorted;
      suppressed_alerts = sort_by suppressed_le (suppressed ++ duplicate_suppressed);
      routing = route generated_sorted;
      generated_at = timestamp;
    }
