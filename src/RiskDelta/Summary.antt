-- ===== src/RiskDelta/Summary.antt =====
-- The summaries of continuous/risk_delta/severity_mapper.py.
pub mod Bounds
use chain_sentinel.Base.{
  ℕ, ◌+◌, String, Bool, true, false, none, some, List, [], ◌∷◌, leb, if◌then◌else◌, length, text_le,
  sort_by, sorted, add, Dict, get, put, ℤ, pos, ◌+ℤ◌,
}
use chain_sentinel.Evidence.Models.{
  EvidenceSeverity, info, Value, RiskEvidence, RiskSummary, severity_value,
}
use chain_sentinel.Evidence.Severity.{severity_rank, intelligence_domain, truthy_text}

-- `bool(metadata.get("reason_only"))`
abbrev is_reason_only : RiskEvidence → Bool
is_reason_only e = elim (get e.metadata "reason_only") [
  | none ↦ false
  | some v ↦ elim (truthy_text v) [ none ↦ false | some s ↦ true ]
]

unfoldable pub score_contribution : RiskEvidence → ℤ
score_contribution e = if is_reason_only e then pos 0 else e.score

-- The locals of the loop over the evidence.
pub record Totals : Type 0 where
  pub total : ℤ
  pub severity_counts : Dict ℕ
  pub domains : List String
  pub max_severity : EvidenceSeverity

-- Every severity starts at 0.
abbrev pub no_totals : Totals
no_totals = record {
  total = pos 0;
  severity_counts = ("info", 0) ∷ ("low", 0) ∷ ("medium", 0) ∷ ("high", 0) ∷ ("critical", 0) ∷ [];
  domains = [];
  max_severity = info;
}

-- `counts.get(k, 0) + 1`
abbrev one_more : Dict ℕ → String → ℕ
one_more d k = elim (get d k) [ none ↦ 1 | some n ↦ n + 1 ]

unfoldable pub count_item : Totals → RiskEvidence → Totals
unfolding score_contribution
count_item t e = record {
  total = t.total +ℤ score_contribution e;
  severity_counts =
      put t.severity_counts (severity_value e.severity)
        (one_more t.severity_counts (severity_value e.severity));
  domains = add (intelligence_domain e.source) t.domains;
  max_severity =
      if leb (severity_rank t.max_severity) (severity_rank e.severity)
      then e.severity
      else t.max_severity;
}

unfoldable pub count_items : Totals → List RiskEvidence → Totals
unfolding count_item
count_items t [] = t
count_items t (e ∷ es) = count_items (count_item t e) es

unfoldable pub summarize_evidence : String → List RiskEvidence → RiskSummary
unfolding count_items
summarize_evidence watch_id evidence =
    let t = count_items no_totals evidence in
    record {
      watch_id = watch_id;
      total_score = t.total;
      evidence_count = length evidence;
      max_severity = t.max_severity;
      severity_counts = sort_by (λ a b. text_le a.0 b.0) t.severity_counts;
      intelligence_domains = sorted t.domains;
    }

-- `sorted({intelligence_domain(item.source) for item in evidence})`
unfoldable pub domains_for_evidence : List RiskEvidence → List String
domains_for_evidence evidence = sorted (domain_set evidence)
  where
    domain_set : List RiskEvidence → List String
    domain_set [] = []
    domain_set (e ∷ es) = add (intelligence_domain e.source) (domain_set es)
