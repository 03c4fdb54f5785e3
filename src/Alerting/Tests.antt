-- ===== src/Alerting/Tests.antt =====
-- A report that adds one critical item of evidence, and a recent alert that is acknowledged.
use chain_sentinel.Base.{
  ◌≡◌, refl, true, ◌||◌, none, List, [], ◌∷◌, arith, length, All, sort_by, mem, add, get, put,
  decimal, join, after_last_colon, ℤ, pos, join,
}
use chain_sentinel.Evidence.Models.{
  EvidenceCategory, ConfidenceLevel, EvidenceSource, EvidenceSeverity, RiskEvidence, RiskTrend,
  RiskSummary, RiskDeltaReport,
}
use chain_sentinel.Alerting.Models.{AlertTexts, SecurityAlert, new_critical_evidence}
use chain_sentinel.Alerting.Rules.{evaluate, build_alert}
use chain_sentinel.Alerting.Rules.Raised.{Raised, evaluate-Raised}
use chain_sentinel.Alerting.Suppression.{acknowledge}
use chain_sentinel.Alerting.Engine.{generate}
use chain_sentinel.Alerting.Engine.Partition.{ids, suppressed_ids}
use chain_sentinel.Alerting.Engine.Promises.{Promises}
use chain_sentinel.Alerting.Engine.Fresh.{generate-fresh}
use chain_sentinel.Alerting.Engine.Critical.{critical_id, generate-critical}

abbrev texts : AlertTexts
texts = record { digest = λ s. s; isoformat = decimal; amount_text = λ z. "0" }

abbrev evidence : RiskEvidence
evidence = record {
  id = "owner:1:mint";
  source = EvidenceSource.governance;
  category = EvidenceCategory.authority;
  severity = EvidenceSeverity.critical;
  score = pos 4500;
  confidence = ConfidenceLevel.low;
  reason = "owner can mint";
  metadata = [];
}

abbrev posture : ℤ → EvidenceSeverity → RiskSummary
posture total worst = record {
  watch_id = "1:0xab";
  total_score = total;
  evidence_count = 1;
  max_severity = worst;
  severity_counts = [];
  intelligence_domains = [];
}

abbrev before : RiskSummary
before = posture (pos 0) EvidenceSeverity.info

abbrev after : RiskSummary
after = posture (pos 4500) EvidenceSeverity.critical

abbrev report : RiskDeltaReport
report = record {
  watch_id = "1:0xab";
  delta = record {
    watch_id = "1:0xab";
    previous_summary = before;
    current_summary = after;
    score_delta = pos 4500;
    added = evidence ∷ [];
    removed = [];
    updated = [];
    trend = RiskTrend.increased;
  };
  previous_summary = before;
  current_summary = after;
  trend = RiskTrend.increased;
  explanation = record {
    headline = "risk increased";
    reasons = [];
    contributing_evidence_ids = "owner:1:mint" ∷ [];
    affected_domains = [];
    metadata = [];
  };
  evidence_summary = record {
    added_count = 1;
    removed_count = 0;
    updated_count = 0;
    affected_domains = [];
    contributing_signals = [];
  };
}

abbrev recent : List SecurityAlert
recent =
    acknowledge (
      build_alert texts report 5 new_critical_evidence EvidenceSeverity.critical "t" "s"
        ("owner:1:mint" ∷ []))
    ∷ []

-- Two alerts are sent, and the acknowledged one is suppressed.
generate_runs :
    (length (generate texts report none recent 100).generated_alerts ≡ 2)
    × (length (generate texts report none recent 100).suppressed_alerts ≡ 1)
unfolding generate sort_by get after_last_colon add join put acknowledge
generate_runs = (refl, refl)

evaluate-Raised_example : All (Raised 100) (evaluate texts report 100)
evaluate-Raised_example = evaluate-Raised texts report 100

generate-critical_example :
    (mem
        (critical_id texts report 100 evidence)
        (ids (generate texts report none recent 100).generated_alerts)
      || mem
          (critical_id texts report 100 evidence)
          (suppressed_ids (generate texts report none recent 100).suppressed_alerts))
    ≡ true
generate-critical_example = generate-critical texts report none recent 100 [] evidence [] refl refl

generate-fresh_example :
    mem
      (critical_id texts report 100 evidence)
      (ids (generate texts report none [] 100).generated_alerts)
    ≡ mem (critical_id texts report 100 evidence) (ids (evaluate texts report 100))
generate-fresh_example =
    generate-fresh texts report none 100 (critical_id texts report 100 evidence) (omega arith)
