-- ===== src/RiskDelta/Classifier.antt =====
-- continuous/risk_delta/delta_classifier.py, and `EvidenceDelta` of continuous/reanalysis/models.py.
pub mod Trend
use chain_sentinel.Base.{
  Bool, ◌||◌, not, List, [], ◌∷◌, ltb, if◌then◌else◌, length, ℤ, pos, ◌+ℤ◌, ◌-ℤ◌, le_int, eq_int,
  ltb,
}
use chain_sentinel.Evidence.Models.{
  RiskEvidence, RiskSummary, RiskTrend, increased, decreased, unchanged,
}
use chain_sentinel.RiskDelta.Summary.{score_contribution}

pub record EvidenceDelta : Type 0 where
  pub added : List RiskEvidence
  pub removed : List RiskEvidence
  pub updated : List (RiskEvidence × RiskEvidence)

-- `sum(score_contribution(item) for item in items)`
unfoldable pub contributions : List RiskEvidence → ℤ
unfolding score_contribution
contributions [] = pos 0
contributions (e ∷ es) = score_contribution e +ℤ contributions es

unfoldable pub update_contributions : List (RiskEvidence × RiskEvidence) → ℤ
unfolding score_contribution
update_contributions [] = pos 0
update_contributions ((before, after) ∷ es) =
    score_contribution after -ℤ score_contribution before +ℤ update_contributions es

unfoldable pub score_delta : RiskSummary → RiskSummary → EvidenceDelta → ℤ
unfolding contributions update_contributions
score_delta previous current delta =
    let computed =
      contributions delta.added
      -ℤ contributions delta.removed
      +ℤ update_contributions delta.updated in
    let summary_delta = current.total_score -ℤ previous.total_score in
    if eq_int computed summary_delta then computed else summary_delta

unfoldable pub has_material_changes : EvidenceDelta → Bool
has_material_changes delta =
    ltb 0 (length delta.added) || ltb 0 (length delta.removed) || ltb 0 (length delta.updated)

-- `a < b`
abbrev pub lt_int : ℤ → ℤ → Bool
lt_int a b = not (le_int b a)

unfoldable pub classify : RiskSummary → RiskSummary → EvidenceDelta → RiskTrend
unfolding score_delta has_material_changes
classify previous current delta =
    let change = score_delta previous current delta in
    if lt_int (pos 0) change
    then increased
    else if lt_int change (pos 0)
    then decreased
    else if has_material_changes delta
    then unchanged
    else unchanged
