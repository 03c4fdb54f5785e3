-- ===== src/Risk/Engine/Neutral.antt =====
-- The built-in correlation rules and the score.
use chain_sentinel.Base.{
  String, ◌≡◌, refl, subst, inl, inr, some, List, [], ◌∷◌, arith, ◌==◌, Bool-cases, Option-cases,
  All, sort_by, mem, add, put, keys, values, ok, ℤ, pos, All-sort_by, add_int_zero,
}
use chain_sentinel.Evidence.Models.{RiskEvidence}
use chain_sentinel.Risk.Correlation.{CorrelationRule, CorrelatedRiskFinding}
use chain_sentinel.Risk.Correlation.Index.{EvidenceIndex}
use chain_sentinel.Risk.Correlation.Rules.{
  Evaluator, finding, match_critical_governance_centralization, match_exit_liquidity_risk,
  match_bridge_upgrade_risk, match_oracle_manipulation_risk, match_potential_rug_pull_pattern,
  match_centralized_administrative_control,
}
use chain_sentinel.Risk.Correlation.Registry.{
  CorrelationRuleHandler, Registry, register, register_all, builtin_handlers,
  register_builtin_rules, default_registry, handler_le, all_handlers,
}
use chain_sentinel.Risk.Correlation.Matcher.{mem_texts, match_handlers, match, correlate}
use chain_sentinel.Risk.Engine.{tally, add_deltas, raw_score}

-- A finding has the score delta of its rule.
abbrev Keeps : Evaluator → Type 0
Keeps evaluator =
    (index : EvidenceIndex) (rule : CorrelationRule) (f : CorrelatedRiskFinding)
    → evaluator index rule ≡ some f
    → f.score_delta ≡ rule.score_delta

governance-Keeps : Keeps match_critical_governance_centralization
unfolding match_critical_governance_centralization finding
governance-Keeps index rule f e = ground arith

liquidity-Keeps : Keeps match_exit_liquidity_risk
unfolding match_exit_liquidity_risk finding
liquidity-Keeps index rule f e = ground arith

bridge-Keeps : Keeps match_bridge_upgrade_risk
unfolding match_bridge_upgrade_risk finding
bridge-Keeps index rule f e = ground arith

oracle-Keeps : Keeps match_oracle_manipulation_risk
unfolding match_oracle_manipulation_risk finding
oracle-Keeps index rule f e = ground arith

rug_pull-Keeps : Keeps match_potential_rug_pull_pattern
unfolding match_potential_rug_pull_pattern finding
rug_pull-Keeps index rule f e = ground arith

control-Keeps : Keeps match_centralized_administrative_control
unfolding match_centralized_administrative_control finding
control-Keeps index rule f e = ground arith

-- A handler whose findings have no score delta.
abbrev IsNeutral : CorrelationRuleHandler → Type 0
IsNeutral h =
    (index : EvidenceIndex) (f : CorrelatedRiskFinding)
    → h.evaluate index ≡ some f
    → f.score_delta ≡ pos 0

builtin-IsNeutral : All IsNeutral builtin_handlers
unfolding builtin_handlers
builtin-IsNeutral = (
  λ index f e. governance-Keeps index _ f e,
  (
    λ index f e. liquidity-Keeps index _ f e,
    (
      λ index f e. bridge-Keeps index _ f e,
      (
        λ index f e. oracle-Keeps index _ f e,
        (λ index f e. rug_pull-Keeps index _ f e, (λ index f e. control-Keeps index _ f e, tt)),
      ),
    ),
  ),
)

values-put :
    (P : CorrelationRuleHandler → Type 0) (d : Registry) (k : String) (h : CorrelationRuleHandler)
    → P h
    → All P (values d)
    → All P (values (put d k h))
unfolding put
values-put P [] k h p all_d = (p, tt)
values-put P ((j, w) ∷ d) k h p all_d = elim (Bool-cases (j == k)) [
  | inl e ↦ rw e (p, all_d.1)
  | inr e ↦ rw e (all_d.0, values-put P d k h p all_d.1)
]

pub register_all-keeps :
    (P : CorrelationRuleHandler → Type 0) (hs : List CorrelationRuleHandler) (d r : Registry)
    → All P hs
    → All P (values d)
    → register_all hs d ≡ ok r
    → All P (values r)
unfolding register_all register
register_all-keeps P [] d r all_hs all_d e = subst (λ x. All P (values x)) (ok_inj d r e) all_d
  where
    ok_inj : (a b : Registry) → register_all [] a ≡ ok b → a ≡ b
    ok_inj a b same = cc
register_all-keeps P (h ∷ hs) d r all_hs all_d e =
    elim (Bool-cases (mem h.definition.id (keys d))) [
      | inl known ↦ absurd (ground arith)
      | inr new ↦
          register_all-keeps P hs (put d h.definition.id h) r all_hs.1
            (values-put P d h.definition.id h all_hs.0 all_d) (ground arith)
    ]

add_deltas-neutral :
    (index : EvidenceIndex) (hs : List CorrelationRuleHandler) (ids : List String)
    (fingerprints : List (List String)) (score : ℤ)
    → All IsNeutral hs
    → add_deltas (match_handlers index hs ids fingerprints) score ≡ score
unfolding match_handlers add_deltas
add_deltas-neutral index [] ids fingerprints score h = refl
add_deltas-neutral index (g ∷ hs) ids fingerprints score h =
    elim (Bool-cases (mem g.definition.id ids)) [
      | inl seen ↦
          rw (seen, match_handlers) (add_deltas-neutral index hs ids fingerprints score h.1)
      | inr new ↦ elim (Option-cases (g.evaluate index)) [
        | inl none_ ↦
            rw (new, none_, match_handlers) (add_deltas-neutral index hs ids fingerprints score h.1)
        | inr (f, e) ↦ elim (Bool-cases (mem_texts f.evidence_ids fingerprints)) [
          | inl old ↦
              rw (new, e, old, match_handlers)
                (add_deltas-neutral index hs ids fingerprints score h.1)
          | inr fresh ↦
              rw (new, e, fresh, match_handlers, h.0 index f e, add_int_zero)
                (add_deltas-neutral index hs (add g.definition.id ids)
                  (f.evidence_ids ∷ fingerprints) score h.1)
        ]
      ]
    ]

-- With the registry of the built-in rules, the score before clamping is the sum over the evidence:
-- correlation changes nothing in it.
pub raw_score-builtin :
    (r : Registry) (evidence : List RiskEvidence)
    → default_registry ≡ ok r
    → raw_score r evidence ≡ (tally evidence (pos 0) []).0
unfolding raw_score correlate match all_handlers default_registry register_builtin_rules
raw_score-builtin r evidence e = add_deltas-neutral _ (sort_by handler_le (values r)) [] [] _ (
    All-sort_by IsNeutral handler_le (values r)
      (register_all-keeps IsNeutral builtin_handlers [] r builtin-IsNeutral tt e))
