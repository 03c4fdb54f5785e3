-- ===== src/Alerting/Engine/Fresh.antt =====
-- continuous/alerting/alert_engine.py where there is no recent alert.
use chain_sentinel.Base.{
  ℕ, ◌≤◌, String, ◌≡◌, refl, ap, ◌∙◌, inl, inr, Option, none, List, [], ◌∷◌, arith, Bool-cases, All,
  sort_by, mem, add, get, All-sort_by, All-map, mem-sort_by_key,
}
use chain_sentinel.Evidence.Models.{RiskDeltaReport}
use chain_sentinel.Evidence.Severity.{severity_rank}
use chain_sentinel.Alerting.Models.{AlertTexts, AlertPolicy, SecurityAlert}
use chain_sentinel.Alerting.Rules.{evaluate}
use chain_sentinel.Alerting.Rules.Raised.{Raised, evaluate-Raised}
use chain_sentinel.Alerting.Deduplicator.{deduplicate_batch, split_seen, alert_le}
use chain_sentinel.Alerting.Suppression.{
  apply, severity_le, suppression_reason, split_suppressed, recent_index,
}
use chain_sentinel.Alerting.Engine.{generate, policy_or_default}
use chain_sentinel.Alerting.Engine.Partition.{ids, split_seen-Deduplicated}

All-split_seen :
    (P : SecurityAlert → Type 0) (seen : List String) (alerts : List SecurityAlert)
    → All P alerts
    → All P (split_seen seen alerts).0
unfolding split_seen
All-split_seen P seen [] ps = tt
All-split_seen P seen (a ∷ alerts) ps = elim (Bool-cases (mem a.alert_id seen)) [
  | inl e ↦ rw e (All-split_seen P seen alerts ps.1)
  | inr e ↦ rw e (ps.0, All-split_seen P (add a.alert_id seen) alerts ps.1)
]

split_suppressed-none :
    (reason_of : SecurityAlert → Option String) (alerts : List SecurityAlert)
    → All (λ a. reason_of a ≡ none) alerts
    → (split_suppressed reason_of alerts).0 ≡ alerts
unfolding split_suppressed
split_suppressed-none reason_of [] h = refl
split_suppressed-none reason_of (a ∷ alerts) h =
    ground (arith, h.0, split_suppressed-none reason_of alerts h.1)

suppression_reason-fresh :
    (texts : AlertTexts) (policy : AlertPolicy) (now : ℕ) (a : SecurityAlert)
    → severity_rank policy.minimum_severity ≤ 3
    → Raised now a
    → suppression_reason texts a policy (recent_index []) now ≡ none
unfolding suppression_reason recent_index get
suppression_reason-fresh texts policy now a low raised = ground (arith, raised.severe)

-- If the least severity of the policy is high or below and there are no recent alerts, the alerts
-- that are sent have exactly the ids of the candidates that the rules raise.
pub generate-fresh :
    (texts : AlertTexts) (report : RiskDeltaReport) (policy : Option AlertPolicy) (timestamp : ℕ)
    (k : String)
    → severity_rank (policy_or_default policy).minimum_severity ≤ 3
    → mem k (ids (generate texts report policy [] timestamp).generated_alerts)
      ≡ mem k (ids (evaluate texts report timestamp))
unfolding generate deduplicate_batch apply mem
generate-fresh texts report policy timestamp k low =
    let active = policy_or_default policy in
    let reason_of =
      λ (a : SecurityAlert). suppression_reason texts a active (recent_index []) timestamp in
    let candidates = evaluate texts report timestamp in
    let sorted_candidates = sort_by alert_le candidates in
    let unique = (deduplicate_batch candidates).0 in
    let unique_sorted = sort_by severity_le unique in
    let d = split_seen-Deduplicated [] sorted_candidates in
    let P = Raised timestamp in
    let raised = All-sort_by P severity_le unique (
      All-split_seen P [] sorted_candidates
        (All-sort_by P alert_le candidates (evaluate-Raised texts report timestamp))) in
    let sent = split_suppressed-none reason_of unique_sorted (
      All-map P (λ a. reason_of a ≡ none)
        (λ a r. suppression_reason-fresh texts active timestamp a low r) unique_sorted raised) in
    mem-sort_by_key (λ a. a.alert_id) severity_le k (split_suppressed reason_of unique_sorted).0
    ∙ ap (λ alerts. mem k (ids alerts)) sent
    ∙ mem-sort_by_key (λ a. a.alert_id) severity_le k unique
    ∙ ground (arith, d.new k, mem-sort_by_key (λ a. a.alert_id) alert_le k candidates)
