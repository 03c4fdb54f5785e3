-- ===== src/Alerting/Engine/Critical.antt =====
-- Critical evidence on its way through continuous/alerting/alert_engine.py.
use chain_sentinel.Base.{
  ℕ, String, ◌≡◌, refl, ◌∙◌, Bool, true, false, ◌||◌, Option, List, [], ◌∷◌, ◌++◌, arith, eq_iff,
  mem,
}
use chain_sentinel.Evidence.Models.{RiskEvidence, RiskDeltaReport, is_critical}
use chain_sentinel.Alerting.Models.{AlertTexts, AlertPolicy, SecurityAlert, new_critical_evidence}
use chain_sentinel.Alerting.Deduplicator.{build_alert_id}
use chain_sentinel.Alerting.Rules.{
  fired, added_evidence_tests, rules_for_added_evidence, added_rules, updated_rules, evidence_rules,
  risk_increase_rules, evaluate, build_alert,
}
use chain_sentinel.Alerting.Engine.{generate}
use chain_sentinel.Alerting.Engine.Partition.{ids, suppressed_ids}
use chain_sentinel.Alerting.Engine.Promises.{generate-Promises}

mem-ids-append :
    (k : String) (xs ys : List SecurityAlert)
    → mem k (ids (xs ++ ys)) ≡ (mem k (ids xs) || mem k (ids ys))
unfolding mem
mem-ids-append k [] ys = refl
mem-ids-append k (x ∷ xs) ys = ground (arith, mem-ids-append k xs ys)

mem-ids-left :
    (k : String) (xs ys : List SecurityAlert)
    → mem k (ids xs) ≡ true
    → mem k (ids (xs ++ ys)) ≡ true
mem-ids-left k xs ys h = ground (arith, mem-ids-append k xs ys)

mem-ids-right :
    (k : String) (xs ys : List SecurityAlert)
    → mem k (ids ys) ≡ true
    → mem k (ids (xs ++ ys)) ≡ true
mem-ids-right k xs ys h = ground (arith, mem-ids-append k xs ys)

-- The first rule fires, and its alert has the id `k`.
abbrev FirstFires : String → List (Bool × SecurityAlert) → Type 0
FirstFires k [] = false ≡ true
FirstFires k ((test, a) ∷ rules) = (test ≡ true) × (a.alert_id ≡ k)

mem-fired_first :
    (k : String) (rules : List (Bool × SecurityAlert))
    → FirstFires k rules
    → mem k (ids (fired rules)) ≡ true
unfolding fired mem
mem-fired_first k [] h = ground arith
mem-fired_first k ((test, a) ∷ rules) h = ground (arith, h.0, h.1, eq_iff k a.alert_id)

module _ (texts : AlertTexts) (report : RiskDeltaReport) (now : ℕ) where
  -- The id of the alert for critical evidence.
  abbrev pub critical_id : RiskEvidence → String
  critical_id e = build_alert_id texts report.watch_id new_critical_evidence (e.id ∷ [])

  rules_for_added_evidence-critical :
      (e : RiskEvidence)
      → is_critical e.severity ≡ true
      → mem (critical_id e) (ids (rules_for_added_evidence texts report now e)) ≡ true
  unfolding rules_for_added_evidence added_evidence_tests build_alert
  rules_for_added_evidence-critical e h =
      mem-fired_first (critical_id e) (added_evidence_tests texts report now e) (h, refl)

  added_rules-critical :
      (before : List RiskEvidence) (e : RiskEvidence) (after : List RiskEvidence)
      → is_critical e.severity ≡ true
      → mem (critical_id e) (ids (added_rules texts report now (before ++ e ∷ after))) ≡ true
  unfolding added_rules
  added_rules-critical [] e after h =
      mem-ids-left (critical_id e) (rules_for_added_evidence texts report now e)
        (added_rules texts report now after) (rules_for_added_evidence-critical e h)
  added_rules-critical (x ∷ before) e after h =
      mem-ids-right (critical_id e) (rules_for_added_evidence texts report now x)
        (added_rules texts report now (before ++ e ∷ after)) (added_rules-critical before e after h)

  evaluate-critical :
      (before : List RiskEvidence) (e : RiskEvidence) (after : List RiskEvidence)
      → report.delta.added ≡ before ++ e ∷ after
      → is_critical e.severity ≡ true
      → mem (critical_id e) (ids (evaluate texts report now)) ≡ true
  unfolding evaluate evidence_rules
  evaluate-critical before e after split h =
      let k = critical_id e in
      let added = added_rules texts report now report.delta.added in
      let updated = updated_rules texts report now report.delta.updated in
      mem-ids-right k (risk_increase_rules texts report now) (added ++ updated)
        (mem-ids-left k added updated (rw split (added_rules-critical before e after h)))

-- For every item of critical evidence that the report adds, an alert with the id of that evidence's
-- rule is sent or is among the suppressed ones.
pub generate-critical :
    (texts : AlertTexts) (report : RiskDeltaReport) (policy : Option AlertPolicy)
    (recent_alerts : List SecurityAlert) (timestamp : ℕ) (before : List RiskEvidence)
    (e : RiskEvidence) (after : List RiskEvidence)
    → report.delta.added ≡ before ++ e ∷ after
    → is_critical e.severity ≡ true
    → (mem
          (critical_id texts report timestamp e)
          (ids (generate texts report policy recent_alerts timestamp).generated_alerts)
        || mem (critical_id texts report timestamp e) (
            suppressed_ids
              (generate texts report policy recent_alerts timestamp).suppressed_alerts))
      ≡ true
generate-critical texts report policy recent_alerts timestamp before e after split h =
    (generate-Promises texts report policy recent_alerts timestamp).covered
      (critical_id texts report timestamp e)
    ∙ evaluate-critical texts report timestamp before e after split h
