-- ===== src/Risk/Tests.antt =====
-- An upgradeable proxy under a plain account, with a mint function and no liquidity.
use chain_sentinel.Base.{
  ℕ, String, ◌≡◌, refl, true, false, List, [], ◌∷◌, ◌++◌, map, filter, any, sort_by, mem, add, Dict,
  get, put, ok, Distinct, pos, ◌+ℤ◌, le_int, filter,
}
use chain_sentinel.Risk.Correlation.Rules.{
  match_centralized_administrative_control, match_potential_rug_pull_pattern,
  match_oracle_manipulation_risk, match_bridge_upgrade_risk, match_exit_liquidity_risk,
  match_critical_governance_centralization,
}
use chain_sentinel.Evidence.Models.{
  EvidenceSource, EvidenceCategory, EvidenceSeverity, ConfidenceLevel, Value, text, amount,
  RiskEvidence,
}
use chain_sentinel.Risk.Evidence.{create_evidence, merge_evidence}
use chain_sentinel.Risk.Evidence.Merged.{evidence_ids, first_with, concat, merge_evidence-first}
use chain_sentinel.Risk.Correlation.Index.{evidence_index, has_signal, items_with_signal}
use chain_sentinel.Risk.Correlation.Index.Lookup.{is_signal, evidence_index-scan}
use chain_sentinel.Risk.Correlation.Registry.{
  Registry, builtin_handlers, register_all, default_registry, all_handlers,
}
use chain_sentinel.Risk.Correlation.Matcher.{correlate}
use chain_sentinel.Risk.Correlation.Matcher.Complete.{Matched, correlate-Matched}
use chain_sentinel.Risk.Engine.{evaluate_from_evidence, weight_at, has_signal as says}
use chain_sentinel.Risk.Engine.Bounds.{IsAssessed, evaluate-IsAssessed}
use chain_sentinel.Risk.Engine.Monotone.{IsGraver, evaluate-IsGraver}

abbrev item : String → ℕ → Dict Value → RiskEvidence
unfolding create_evidence
item signal score metadata =
    create_evidence EvidenceSource.proxy EvidenceCategory.authority signal EvidenceSeverity.high
      (pos score) ConfidenceLevel.medium signal (("signal", text signal) ∷ metadata)

abbrev upgradeable : RiskEvidence
unfolding item
upgradeable = item "is_upgradeable" 2000 (("threat_weight", amount (pos 20)) ∷ [])

abbrev admin : RiskEvidence
unfolding item
admin = item "admin_address" 1500 (("admin_type", text "eoa") ∷ [])

abbrev mint : RiskEvidence
unfolding item
mint = item "mint_capability" 1000 (("threat_weight", amount (pos 10)) ∷ [])

abbrev dry : RiskEvidence
unfolding item
dry = item "no_liquidity" 1500 []

abbrev evidence : List RiskEvidence
unfolding upgradeable admin mint
evidence = upgradeable ∷ admin ∷ mint ∷ []

abbrev registry : Registry
registry = map (λ h. (h.definition.id, h)) builtin_handlers

default_registry_runs : default_registry ≡ ok registry
unfolding default_registry mem put
default_registry_runs = refl

findings_run :
    map (λ f. f.correlation_rule) (correlate registry (evidence ++ dry ∷ [])).findings
    ≡ "critical_governance_centralization" ∷ "exit_liquidity_risk" ∷ []
unfolding correlate sort_by builtin_handlers mem match_critical_governance_centralization evidence
    get put add match_exit_liquidity_risk match_bridge_upgrade_risk match_oracle_manipulation_risk
    match_potential_rug_pull_pattern match_centralized_administrative_control
findings_run = refl

score_runs : (evaluate_from_evidence registry evidence).risk_score ≡ pos 4500
unfolding evaluate_from_evidence evidence get sort_by builtin_handlers mem
    match_critical_governance_centralization put add match_exit_liquidity_risk
    match_bridge_upgrade_risk match_oracle_manipulation_risk match_potential_rug_pull_pattern
    match_centralized_administrative_control ◌+ℤ◌
score_runs = refl

merge_runs :
    evidence_ids (merge_evidence ((mint ∷ dry ∷ []) ∷ (mint ∷ admin ∷ []) ∷ []))
    ≡ "proxy:authority:mint_capability" ∷ "proxy:authority:no_liquidity"
      ∷ "proxy:authority:admin_address" ∷ []
unfolding merge_evidence mem add dry
merge_runs = refl

contract_runs : says (evidence ++ dry ∷ []) "not_contract" ≡ false
unfolding says evidence get
contract_runs = refl

merge_evidence-first_example :
    Distinct (evidence_ids (merge_evidence (evidence ∷ (mint ∷ []) ∷ [])))
    × ((k : String)
        → mem k (evidence_ids (merge_evidence (evidence ∷ (mint ∷ []) ∷ [])))
          ≡ mem k (evidence_ids (concat (evidence ∷ (mint ∷ []) ∷ []))))
    × ((k : String)
        → first_with k (merge_evidence (evidence ∷ (mint ∷ []) ∷ []))
          ≡ first_with k (concat (evidence ∷ (mint ∷ []) ∷ [])))
merge_evidence-first_example = merge_evidence-first (evidence ∷ (mint ∷ []) ∷ [])

evidence_index-scan_example :
    (items_with_signal (evidence_index evidence) "mint_capability"
      ≡ filter (is_signal "mint_capability") evidence)
    × (has_signal (evidence_index evidence) "mint_capability"
        ≡ any (is_signal "mint_capability") evidence)
evidence_index-scan_example = evidence_index-scan evidence "mint_capability"

registered_run : register_all builtin_handlers [] ≡ ok registry
unfolding register_all builtin_handlers mem put
registered_run = refl

correlate-Matched_example :
    Matched
      (evidence_index (evidence ++ dry ∷ []))
      (all_handlers registry)
      []
      (correlate registry (evidence ++ dry ∷ [])).findings
correlate-Matched_example =
    correlate-Matched builtin_handlers registry (evidence ++ dry ∷ []) registered_run

evaluate-IsAssessed_example : IsAssessed (evaluate_from_evidence registry evidence)
evaluate-IsAssessed_example = evaluate-IsAssessed registry evidence

weights_run :
    (le_int (pos 0) dry.score ≡ true)
    × (le_int (pos 0) (weight_at dry "threat_weight") ≡ true)
    × (le_int (pos 0) (weight_at dry "centralization_weight") ≡ true)
unfolding dry get
weights_run = (refl, refl, refl)

evaluate-IsGraver_example :
    IsGraver
      (evaluate_from_evidence registry evidence)
      (evaluate_from_evidence registry (evidence ++ dry ∷ []))
evaluate-IsGraver_example =
    evaluate-IsGraver registry evidence dry default_registry_runs contract_runs weights_run.0
      weights_run.1 weights_run.2
