-- ===== src/Risk/Correlation/Registry.antt =====
-- blockchain/risk/correlation/registry.py, with the rules that builtin_rules.py registers.
use chain_sentinel.Base.{
  ℕ, String, Bool, Option, List, [], ◌∷◌, ltb, eqb, if◌then◌else◌, text_le, sort_by, mem, Dict, put,
  keys, values, Result, ok, err, ◌>>=◌, pos, ltb,
}
use chain_sentinel.Evidence.Models.{EvidenceSeverity}
use chain_sentinel.Risk.Correlation.{
  CorrelationRule, CorrelatedRiskFinding, CorrelationImpact, CorrelationLikelihood,
}
use chain_sentinel.Risk.Correlation.Index.{EvidenceIndex}
use chain_sentinel.Risk.Correlation.Rules.{
  match_critical_governance_centralization, match_exit_liquidity_risk, match_bridge_upgrade_risk,
  match_oracle_manipulation_risk, match_potential_rug_pull_pattern,
  match_centralized_administrative_control,
}

-- A handler, such as `CallableCorrelationRule`.
pub record CorrelationRuleHandler : Type 0 where
  pub definition : CorrelationRule
  pub evaluate : EvidenceIndex → Option CorrelatedRiskFinding

abbrev pub Registry : Type 0
Registry = Dict CorrelationRuleHandler

pub data Error : Type 0 where
  duplicate_correlation_rule : String → Error

unfoldable pub register : Registry → CorrelationRuleHandler → Result Error Registry
register handlers handler =
    let rule_id = handler.definition.id in
    if mem rule_id (keys handlers)
    then err (duplicate_correlation_rule rule_id)
    else ok (put handlers rule_id handler)

-- `(priority, id)`
abbrev pub handler_le : CorrelationRuleHandler → CorrelationRuleHandler → Bool
handler_le a b =
    if eqb a.definition.priority b.definition.priority
    then text_le a.definition.id b.definition.id
    else ltb a.definition.priority b.definition.priority

unfoldable pub all_handlers : Registry → List CorrelationRuleHandler
all_handlers handlers = sort_by handler_le (values handlers)

abbrev handler :
    (id title description : String) (severity : EvidenceSeverity) (impact : CorrelationImpact)
    (likelihood : CorrelationLikelihood) (priority : ℕ)
    (evaluator : EvidenceIndex → CorrelationRule → Option CorrelatedRiskFinding)
    → CorrelationRuleHandler
handler id title description severity impact likelihood priority evaluator =
    let rule : CorrelationRule = record {
      id = id;
      title = title;
      description = description;
      severity = severity;
      impact = impact;
      likelihood = likelihood;
      score_delta = pos 0;
      priority = priority;
    } in
    record { definition = rule; evaluate = λ index. evaluator index rule }

unfoldable pub builtin_handlers : List CorrelationRuleHandler
builtin_handlers =
    handler "critical_governance_centralization" "Critical Governance Centralization"
      "Upgradeable proxy with EOA upgrade authority and no timelock protection."
      EvidenceSeverity.critical CorrelationImpact.critical CorrelationLikelihood.high 10
      match_critical_governance_centralization
    ∷ handler "exit_liquidity_risk" "Exit Liquidity Risk"
        "Unlimited mint capability paired with low or missing DEX liquidity." EvidenceSeverity.high
        CorrelationImpact.high CorrelationLikelihood.medium 20 match_exit_liquidity_risk
    ∷ handler "bridge_upgrade_risk" "Bridge Upgrade Risk"
        "Bridge integration on an upgradeable proxy surface." EvidenceSeverity.high
        CorrelationImpact.high CorrelationLikelihood.medium 30 match_bridge_upgrade_risk
    ∷ handler "oracle_manipulation_risk" "Oracle Manipulation Risk"
        "Oracle dependency combined with upgrade or admin authority." EvidenceSeverity.high
        CorrelationImpact.high CorrelationLikelihood.medium 40 match_oracle_manipulation_risk
    ∷ handler "potential_rug_pull_pattern" "Potential Rug Pull Pattern"
        "Low wallet reputation, fresh deployment, and mint capability observed together."
        EvidenceSeverity.critical CorrelationImpact.critical CorrelationLikelihood.high 50
        match_potential_rug_pull_pattern
    ∷ handler "centralized_administrative_control" "Centralized Administrative Control"
        "Privileged entity concentration with administrative contract functions."
        EvidenceSeverity.high CorrelationImpact.high CorrelationLikelihood.medium 60
        match_centralized_administrative_control
    ∷ []

unfoldable pub register_all : List CorrelationRuleHandler → Registry → Result Error Registry
unfolding register
register_all [] handlers = ok handlers
register_all (h ∷ hs) handlers = do handlers' ← register handlers h; register_all hs handlers'

unfoldable pub register_builtin_rules : Registry → Result Error Registry
unfolding register_all builtin_handlers
register_builtin_rules handlers = register_all builtin_handlers handlers

-- `get_default_registry`, on its first call.
unfoldable pub default_registry : Result Error Registry
unfolding register_builtin_rules
default_registry = register_builtin_rules []
