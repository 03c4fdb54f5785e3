-- ===== src/Alerting/Engine/Promises.antt =====
-- What a batch of alerts promises, however the rules, the deduplicator and the policy fall out.
use chain_sentinel.Base.{
  ℕ, ◌+◌, ◌≤◌, ◌<◌, String, ◌≡◌, refl, inl, inr, false, ◌&&◌, ◌||◌, Option, none, some, List, [],
  ◌∷◌, ◌++◌, map, arith, Option-cases, length, length-append, All, sort_by, length-sort_by, mem,
  Dict, get, Distinct, pos, All-sort_by, All-map, length-append, length-sort_by, mem-sort_by_key,
  Distinct-sort_by_key,
}
use chain_sentinel.Evidence.Models.{RiskDeltaReport}
use chain_sentinel.Evidence.Severity.{severity_rank}
use chain_sentinel.Alerting.Models.{
  AlertTexts, AlertPolicy, SecurityAlert, SuppressedAlert, AlertBatch,
}
use chain_sentinel.Alerting.Rules.{evaluate}
use chain_sentinel.Alerting.Deduplicator.{deduplicate_batch, alert_le}
use chain_sentinel.Alerting.Suppression.{
  apply, suppressed_as, severity_le, suppression_reason, split_suppressed, recent_index,
  is_acknowledged,
}
use chain_sentinel.Alerting.Router.{route, decision}
use chain_sentinel.Alerting.Engine.{generate, policy_or_default, suppressed_le}
use chain_sentinel.Alerting.Engine.Partition.{ids, suppressed_ids, split_seen-Deduplicated}

-- An alert that the policy lets through: severe enough, and a prior alert of the same id is
-- neither acknowledged, if the policy respects that, nor cooling down.
pub record Allowed (recent : Dict SecurityAlert) (policy : AlertPolicy) (now : ℕ)
    (a : SecurityAlert) : Type 0 where
  pub severe : severity_rank policy.minimum_severity ≤ severity_rank a.severity
  pub unacknowledged :
      (prior : SecurityAlert)
      → get recent a.alert_id ≡ some prior
      → (policy.respect_acknowledgements && is_acknowledged prior.acknowledgement_state) ≡ false
  pub cooled :
      (prior : SecurityAlert) (n : ℕ)
      → get recent a.alert_id ≡ some prior
      → policy.cooldown_seconds ≡ pos n
      → 0 < n
      → prior.timestamp + n ≤ now

suppression_reason-Allowed :
    (texts : AlertTexts) (recent : Dict SecurityAlert) (policy : AlertPolicy) (now : ℕ)
    (a : SecurityAlert)
    → suppression_reason texts a policy recent now ≡ none
    → Allowed recent policy now a
unfolding suppression_reason
suppression_reason-Allowed texts recent policy now a h = record {
  severe = ground arith;
  unacknowledged = λ prior found. ground (arith, found);
  cooled = λ prior n found e positive. ground (arith, found, e);
}

-- What `split_suppressed` keeps of the alerts that it is given.
record SortedOut (reason_of : SecurityAlert → Option String) (alerts generated : List SecurityAlert)
    (suppressed : List SuppressedAlert) : Type 0 where
  passed : All (λ a. reason_of a ≡ none) generated
  covered :
      (k : String)
      → (mem k (ids generated) || mem k (suppressed_ids suppressed)) ≡ mem k (ids alerts)
  counted : length generated + length suppressed ≡ length alerts
  distinct : Distinct (ids alerts) → Distinct (ids generated)

split_suppressed_lem :
    (reason_of : SecurityAlert → Option String) (alerts : List SecurityAlert)
    → SortedOut reason_of alerts
        (split_suppressed reason_of alerts).0
        (split_suppressed reason_of alerts).1
unfolding split_suppressed mem
split_suppressed_lem reason_of [] = record {
  passed = tt;
  covered = λ k. refl;
  counted = refl;
  distinct = λ d. d;
}
split_suppressed_lem reason_of (a ∷ alerts) =
    let h = split_suppressed_lem reason_of alerts in
    elim (Option-cases (reason_of a)) [
      | inl e ↦
          rw (split_suppressed, e)
            record {
              passed = (e, h.passed);
              covered = λ k. ground (arith, h.covered k);
              counted = ground (arith, h.counted);
              distinct = λ d. (ground (arith, h.covered a.alert_id, d.0), h.distinct d.1);
            }
      | inr (r, e) ↦
          rw (split_suppressed, e)
            record {
              passed = h.passed;
              covered = λ k. ground (arith, h.covered k);
              counted = ground (arith, h.counted);
              distinct = λ d. h.distinct d.1;
            }
    ]

ids-duplicates :
    (duplicates : List SecurityAlert)
    → suppressed_ids (map (λ a. suppressed_as a "duplicate alert identifier") duplicates)
      ≡ ids duplicates
ids-duplicates [] = refl
ids-duplicates (a ∷ duplicates) = ground (arith, ids-duplicates duplicates)

length-map-suppressed_as :
    (reason : String) (alerts : List SecurityAlert)
    → length (map (λ a. suppressed_as a reason) alerts) ≡ length alerts
length-map-suppressed_as reason [] = refl
length-map-suppressed_as reason (a ∷ alerts) =
    ground (arith, length-map-suppressed_as reason alerts)

mem-append_suppressed :
    (k : String) (xs ys : List SuppressedAlert)
    → mem k (suppressed_ids (xs ++ ys)) ≡ (mem k (suppressed_ids xs) || mem k (suppressed_ids ys))
unfolding mem
mem-append_suppressed k [] ys = refl
mem-append_suppressed k (x ∷ xs) ys = ground (arith, mem-append_suppressed k xs ys)

-- What a batch promises of the candidates of the rules.
pub record Promises (candidates : List SecurityAlert) (recent : List SecurityAlert)
    (policy : AlertPolicy) (batch : AlertBatch) : Type 0 where
  pub distinct : Distinct (ids batch.generated_alerts)
  pub counted : length batch.generated_alerts + length batch.suppressed_alerts ≡ length candidates
  pub covered :
      (k : String)
      → (mem k (ids batch.generated_alerts) || mem k (suppressed_ids batch.suppressed_alerts))
        ≡ mem k (ids candidates)
  pub allowed : All (Allowed (recent_index recent) policy batch.generated_at) batch.generated_alerts
  pub routed :
      (k : String)
      → mem k (map (λ d. d.alert_id) batch.routing) ≡ mem k (ids batch.generated_alerts)
  pub routed_once : length batch.routing ≡ length batch.generated_alerts

ids-decisions :
    (alerts : List SecurityAlert) → map (λ d. d.alert_id) (map decision alerts) ≡ ids alerts
ids-decisions [] = refl
ids-decisions (a ∷ alerts) = ground (arith, ids-decisions alerts)

length-decisions : (alerts : List SecurityAlert) → length (map decision alerts) ≡ length alerts
length-decisions [] = refl
length-decisions (a ∷ alerts) = ground (arith, length-decisions alerts)

pub generate-Promises :
    (texts : AlertTexts) (report : RiskDeltaReport) (policy : Option AlertPolicy)
    (recent_alerts : List SecurityAlert) (timestamp : ℕ)
    → Promises
        (evaluate texts report timestamp)
        recent_alerts
        (policy_or_default policy)
        (generate texts report policy recent_alerts timestamp)
unfolding generate deduplicate_batch apply route mem
generate-Promises texts report policy recent_alerts timestamp =
    let active = policy_or_default policy in
    let reason_of = λ (a : SecurityAlert).
      suppression_reason texts a active (recent_index recent_alerts) timestamp in
    let candidates = evaluate texts report timestamp in
    let sorted_candidates = sort_by alert_le candidates in
    let unique = (deduplicate_batch candidates).0 in
    let duplicates = (deduplicate_batch candidates).1 in
    let d = split_seen-Deduplicated [] sorted_candidates in
    let unique_sorted = sort_by severity_le unique in
    let h = split_suppressed_lem reason_of unique_sorted in
    let generated = (split_suppressed reason_of unique_sorted).0 in
    let suppressed = (split_suppressed reason_of unique_sorted).1 in
    let repeated = map (λ a. suppressed_as a "duplicate alert identifier") duplicates in
    record {
      distinct =
          Distinct-sort_by_key (λ a. a.alert_id) severity_le generated
            (h.distinct (Distinct-sort_by_key (λ a. a.alert_id) severity_le unique d.distinct));
      counted = omega (
        arith,
        h.counted,
        d.counted,
        length-append suppressed repeated,
        length-map-suppressed_as "duplicate alert identifier" duplicates,
        length-sort_by severity_le unique,
        length-sort_by severity_le generated,
        length-sort_by alert_le candidates,
        length-sort_by suppressed_le (suppressed ++ repeated),
      );
      covered = λ k. ground (
        arith,
        h.covered k,
        d.new k,
        d.repeated k,
        mem-append_suppressed k suppressed repeated,
        ids-duplicates duplicates,
        mem-sort_by_key (λ a. a.alert_id) severity_le k unique,
        mem-sort_by_key (λ a. a.alert_id) severity_le k generated,
        mem-sort_by_key (λ a. a.alert_id) alert_le k candidates,
        mem-sort_by_key (λ a. a.alert_id) suppressed_le k (suppressed ++ repeated),
      );
      allowed =
          All-sort_by (Allowed (recent_index recent_alerts) active timestamp) severity_le generated
            (All-map (λ a. reason_of a ≡ none)
              (Allowed (recent_index recent_alerts) active timestamp)
              (suppression_reason-Allowed texts (recent_index recent_alerts) active timestamp)
              generated h.passed);
      routed = λ k. ground (
        arith,
        ids-decisions (sort_by severity_le (sort_by severity_le generated)),
        mem-sort_by_key (λ a. a.alert_id) severity_le k (sort_by severity_le generated),
      );
      routed_once = ground (
        arith,
        length-decisions (sort_by severity_le (sort_by severity_le generated)),
        length-sort_by severity_le (sort_by severity_le generated),
      );
    }
