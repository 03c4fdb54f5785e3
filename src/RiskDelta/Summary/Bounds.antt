-- ===== src/RiskDelta/Summary/Bounds.antt =====
-- What a summary says of the evidence.
use chain_sentinel.Base.{
  ◌≤◌, String, ◌≡◌, refl, ◌∙◌, ◌⊎◌, inl, inr, true, ◌||◌, List, [], ◌∷◌, arith, ◌==◌, leb, eqb,
  Bool-cases, any, All, mem, mem-add, mem-sorted,
}
use chain_sentinel.Evidence.Models.{EvidenceSeverity, info, RiskEvidence}
use chain_sentinel.Evidence.Severity.{severity_rank, intelligence_domain}
use chain_sentinel.RiskDelta.Summary.{
  Totals, no_totals, count_item, count_items, summarize_evidence,
}

-- The largest severity is at least each of the evidence, and is info or one of theirs.
pub record IsLargest (m : EvidenceSeverity) (evidence : List RiskEvidence) : Type 0 where
  pub above : All (λ e. severity_rank e.severity ≤ severity_rank m) evidence
  pub attained :
      (m ≡ info) ⊎ (any (λ e. eqb (severity_rank e.severity) (severity_rank m)) evidence ≡ true)

count_item-severity :
    (t : Totals) (e : RiskEvidence)
    → (severity_rank e.severity ≤ severity_rank (count_item t e).max_severity)
      × (severity_rank t.max_severity ≤ severity_rank (count_item t e).max_severity)
      × (((count_item t e).max_severity ≡ t.max_severity)
          ⊎ ((count_item t e).max_severity ≡ e.severity))
unfolding count_item
count_item-severity t e =
    elim (Bool-cases (leb (severity_rank t.max_severity) (severity_rank e.severity))) [
      | inl h ↦ (ground arith, ground arith, inr (rw h refl))
      | inr h ↦ (ground arith, ground arith, inl (rw h refl))
    ]

count_items-above :
    (es : List RiskEvidence) (t : Totals)
    → (severity_rank t.max_severity ≤ severity_rank (count_items t es).max_severity)
      × All (λ e. severity_rank e.severity ≤ severity_rank (count_items t es).max_severity) es
unfolding count_items
count_items-above [] t = (omega arith, tt)
count_items-above (e ∷ es) t =
    let (low, rest) = count_items-above es (count_item t e) in
    let (new, old, _) = count_item-severity t e in
    (omega (arith, low, old), (omega (arith, low, new), rest))

count_items-attained :
    (es : List RiskEvidence) (t : Totals)
    → ((count_items t es).max_severity ≡ t.max_severity)
      ⊎ (any
            (λ e. eqb (severity_rank e.severity) (severity_rank (count_items t es).max_severity))
            es
          ≡ true)
unfolding count_items
count_items-attained [] t = inl refl
count_items-attained (e ∷ es) t = elim (count_items-attained es (count_item t e)) [
  | inr found ↦ inr (ground arith)
  | inl same ↦ elim (count_item-severity t e).2 [
    | inl kept ↦ inl (same ∙ kept)
    | inr new ↦ inr (rw (same, new) (ground arith))
  ]
]

count_items-domains :
    (es : List RiskEvidence) (t : Totals) (k : String)
    → mem k (count_items t es).domains
      ≡ (mem k t.domains || any (λ e. k == intelligence_domain e.source) es)
unfolding count_items count_item
count_items-domains [] t k = ground arith
count_items-domains (e ∷ es) t k = ground (
  arith,
  count_items-domains es (count_item t e) k,
  mem-add k (intelligence_domain e.source) t.domains,
)

-- The largest severity of a summary bounds those of the evidence, and is one of them, or info if
-- no item is more severe; and the domains of the summary are exactly those of the evidence.
pub summarize_evidence_lem :
    (watch_id : String) (evidence : List RiskEvidence)
    → IsLargest (summarize_evidence watch_id evidence).max_severity evidence
      × ((k : String)
          → mem k (summarize_evidence watch_id evidence).intelligence_domains
            ≡ any (λ e. k == intelligence_domain e.source) evidence)
unfolding summarize_evidence mem
summarize_evidence_lem watch_id evidence = (
  record {
    above = (count_items-above evidence no_totals).1;
    attained = count_items-attained evidence no_totals;
  },
  λ k. ground (
    arith,
    mem-sorted k (count_items no_totals evidence).domains,
    count_items-domains evidence no_totals k,
  ),
)
