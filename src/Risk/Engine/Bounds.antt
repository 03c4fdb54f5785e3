-- ===== src/Risk/Engine/Bounds.antt =====
-- The bounds of an assessment.
use chain_sentinel.Base.{
  ◌<◌, String, ◌≡◌, refl, inl, inr, true, List, [], ◌∷◌, arith, Bool-cases, length, ℤ, pos, negsuc,
  le_int,
}
use chain_sentinel.Evidence.Models.{RiskEvidence}
use chain_sentinel.Risk.Correlation.Registry.{Registry}
use chain_sentinel.Risk.Engine.{
  RiskAssessment, RiskLevel, has_signal, raw_score, tally, clamp, score_to_level, or_default,
  evaluate_from_evidence,
}

pub clamp-bounds :
    (score : ℤ) → (le_int (pos 0) (clamp score) ≡ true) × (le_int (clamp score) (pos 10000) ≡ true)
unfolding clamp
clamp-bounds (pos n) = (ground arith, ground arith)
clamp-bounds (negsuc n) = (ground arith, ground arith)

abbrev pub Within100 : ℤ → Type 0
Within100 score = (le_int (pos 0) score ≡ true) × (le_int score (pos 10000) ≡ true)

pub record IsAssessed (a : RiskAssessment) : Type 0 where
  pub bounds : Within100 a.risk_score
  pub level : a.risk_level ≡ score_to_level a.risk_score
  pub reasoned : 0 < length a.risk_reasons

length-or_default : (reasons : List String) → 0 < length (or_default reasons)
length-or_default [] = omega arith
length-or_default (r ∷ reasons) = omega arith

-- For any rules and any evidence, the score of an assessment is between 0 and 100, its risk level is
-- the one that the thresholds give this score, and it has a reason.
pub evaluate-IsAssessed :
    (registry : Registry) (evidence : List RiskEvidence)
    → IsAssessed (evaluate_from_evidence registry evidence)
unfolding evaluate_from_evidence score_to_level
evaluate-IsAssessed registry evidence = elim (Bool-cases (has_signal evidence "not_contract")) [
  | inl e ↦
      rw (e, evaluate_from_evidence)
        (record { bounds = (refl, refl); level = eoa_level; reasoned = omega arith })
  | inr e ↦
      rw (e, evaluate_from_evidence)
        (record {
          bounds = clamp-bounds (raw_score registry evidence);
          level = refl;
          reasoned = length-or_default (tally evidence (pos 0) []).1;
        })
]
  where
    eoa_level : RiskLevel.low ≡ score_to_level (pos 0)
    eoa_level = refl
