-- ===== src/Risk/Correlation/Rules.antt =====
-- The evaluators of blockchain/risk/correlation/builtin_rules.py.
use chain_sentinel.Base.{
  ℕ, String, Bool, false, not, Option, none, some, List, [], ◌∷◌, ◌++◌, map, if◌then◌else◌, filter,
  Dict, ◌⧺◌, starts_with, pos, filter, starts_with,
}
use chain_sentinel.Evidence.Models.{Value, flag, amount, RiskEvidence}
use chain_sentinel.Risk.Correlation.{CorrelationRule, CorrelatedRiskFinding}
use chain_sentinel.Risk.Correlation.Index.{
  EvidenceIndex, signal_of, has_signal, items_with_signal, has_any_signal,
  has_admin_eoa_without_timelock, has_upgrade_authority, capability_signals, has_admin_capability,
  has_low_wallet_reputation, aggregate_confidence, is_empty,
}

unfoldable pub finding :
    CorrelationRule → List RiskEvidence → String → Dict Value → CorrelatedRiskFinding
unfolding aggregate_confidence
finding rule matched explanation metadata = record {
  id = "correlation:" ⧺ rule.id;
  title = rule.title;
  description = rule.description;
  severity = rule.severity;
  confidence = aggregate_confidence matched;
  score_delta = rule.score_delta;
  impact = rule.impact;
  likelihood = rule.likelihood;
  explanation = explanation;
  evidence_ids = map (λ e. e.id) matched;
  correlation_rule = rule.id;
  metadata = metadata;
}

abbrev pub weight : ℕ → Value
weight n = amount (pos n)

-- `first or second` of two tuples
abbrev pub or_else : List RiskEvidence → List RiskEvidence → List RiskEvidence
or_else [] ys = ys
or_else (x ∷ xs) ys = x ∷ xs

-- `str(metadata.get("signal", "")).startswith(prefix)`, for a prefix that no flag or number has
abbrev pub has_prefix : String → RiskEvidence → Bool
has_prefix prefix e = elim (signal_of e) [ none ↦ false | some s ↦ starts_with prefix s ]

abbrev pub Evaluator : Type 0
Evaluator = EvidenceIndex → CorrelationRule → Option CorrelatedRiskFinding

unfoldable pub match_critical_governance_centralization : Evaluator
unfolding has_signal items_with_signal has_admin_eoa_without_timelock finding
match_critical_governance_centralization index rule =
    if not (has_signal index "is_upgradeable")
    then none
    else if not (has_admin_eoa_without_timelock index)
    then none
    else some (
        finding rule
          (items_with_signal index "is_upgradeable" ++ items_with_signal index "admin_address")
          "Upgradeable proxy controlled by an EOA without timelock protection creates critical governance centralization."
          (("centralization_weight", weight 12) ∷ ("threat_weight", weight 8) ∷ []))

unfoldable pub match_exit_liquidity_risk : Evaluator
unfolding has_signal items_with_signal has_any_signal finding
match_exit_liquidity_risk index rule =
    let liquidity_signal : String =
      if has_signal index "no_liquidity" then "no_liquidity" else "low_liquidity" in
    if not (has_signal index "mint_capability")
    then none
    else if not (has_any_signal index ("no_liquidity" ∷ "low_liquidity" ∷ []))
    then none
    else some (
        finding rule
          (items_with_signal index "mint_capability" ++ items_with_signal index liquidity_signal)
          "Unlimited mint capability combined with shallow or missing liquidity enables exit liquidity extraction."
          (("threat_weight", weight 10) ∷ []))

unfoldable pub match_bridge_upgrade_risk : Evaluator
unfolding has_signal items_with_signal finding starts_with
match_bridge_upgrade_risk index rule =
    let bridge_items : List RiskEvidence = filter (has_prefix "protocol_bridge") index.evidence in
    if not (has_signal index "is_upgradeable")
    then none
    else if is_empty bridge_items
    then none
    else some (
        finding rule (items_with_signal index "is_upgradeable" ++ bridge_items)
          "Bridge integration on an upgradeable proxy increases the blast radius of malicious upgrades."
          (("threat_weight", weight 12) ∷ []))

unfoldable pub match_oracle_manipulation_risk : Evaluator
unfolding items_with_signal has_upgrade_authority finding starts_with
match_oracle_manipulation_risk index rule =
    let oracle_items : List RiskEvidence = filter (has_prefix "protocol_oracle") index.evidence in
    if is_empty oracle_items
    then none
    else if not (has_upgrade_authority index)
    then none
    else some (
        finding rule
          (oracle_items
            ++ or_else (items_with_signal index "admin_address")
                (items_with_signal index "is_upgradeable"))
          "Oracle dependency combined with upgrade authority enables manipulation of pricing and dependent protocol logic."
          (("threat_weight", weight 14) ∷ []))

unfoldable pub match_potential_rug_pull_pattern : Evaluator
unfolding has_signal items_with_signal has_low_wallet_reputation finding
match_potential_rug_pull_pattern index rule =
    if not (has_signal index "mint_capability")
    then none
    else if not (has_signal index "fresh_deployer")
    then none
    else if not (has_low_wallet_reputation index)
    then none
    else some (
        finding rule
          (items_with_signal index "mint_capability"
            ++ (items_with_signal index "fresh_deployer"
                ++ or_else (items_with_signal index "wallet_known_scam")
                    (items_with_signal index "tornado_funded_deployer")))
          "Fresh deployment, weak wallet reputation, and mint capability form a classic rug-pull pattern."
          (("threat_weight", weight 16) ∷ ("force_threat_critical", flag false) ∷ []))

unfoldable pub items_of_signals : EvidenceIndex → List String → List RiskEvidence
unfolding items_with_signal
items_of_signals index [] = []
items_of_signals index (s ∷ signals) = items_with_signal index s ++ items_of_signals index signals

unfoldable pub match_centralized_administrative_control : Evaluator
unfolding items_with_signal items_of_signals has_admin_capability finding
match_centralized_administrative_control index rule =
    if is_empty (items_with_signal index "privileged_entity")
    then none
    else if not (has_admin_capability index)
    then none
    else some (
        finding rule
          (items_with_signal index "privileged_entity" ++ items_of_signals index capability_signals)
          "Concentrated privileged entities combined with administrative contract functions indicate centralized operational control."
          (("centralization_weight", weight 10) ∷ []))
