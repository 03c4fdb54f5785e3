-- ===== src/RiskDelta/Classifier/Trend.antt =====
-- The trend and the totals of two summaries.
use chain_sentinel.Base.{
  zero, suc, ◌≡◌, refl, inl, inr, true, arith, if◌then◌else◌, Bool-cases, ℤ, pos, negsuc,
  difference, ◌+ℤ◌, neg, ◌-ℤ◌, eq_int,
}
use chain_sentinel.Evidence.Models.{RiskSummary, increased, decreased, unchanged}
use chain_sentinel.RiskDelta.Classifier.{
  EvidenceDelta, score_delta, classify, lt_int, contributions, update_contributions,
}

eq_int-eq : (a b : ℤ) → eq_int a b ≡ true → a ≡ b
eq_int-eq (pos a) (pos b) h = ground arith
eq_int-eq (negsuc a) (negsuc b) h = ground arith
eq_int-eq (pos a) (negsuc b) h = cc
eq_int-eq (negsuc a) (pos b) h = cc

score_delta-eq :
    (previous current : RiskSummary) (delta : EvidenceDelta)
    → score_delta previous current delta ≡ current.total_score -ℤ previous.total_score
unfolding score_delta
score_delta-eq previous current delta =
    let computed =
      contributions delta.added
      -ℤ contributions delta.removed
      +ℤ update_contributions delta.updated in
    let change = current.total_score -ℤ previous.total_score in
    elim (Bool-cases (eq_int computed change)) [
      | inl h ↦ rw h (eq_int-eq computed change h)
      | inr h ↦ rw h refl
    ]

-- The sign of a difference.
sub-positive : (a b : ℤ) → lt_int (pos 0) (b -ℤ a) ≡ lt_int a b
unfolding ◌-ℤ◌ ◌+ℤ◌ neg difference
sub-positive (pos zero) (pos b) = ground arith
sub-positive (pos zero) (negsuc b) = ground arith
sub-positive (pos (suc a)) (pos b) = ground arith
sub-positive (pos (suc a)) (negsuc b) = ground arith
sub-positive (negsuc a) (pos b) = ground arith
sub-positive (negsuc a) (negsuc b) = ground arith

sub-negative : (a b : ℤ) → lt_int (b -ℤ a) (pos 0) ≡ lt_int b a
unfolding ◌-ℤ◌ ◌+ℤ◌ neg difference
sub-negative (pos zero) (pos b) = ground arith
sub-negative (pos zero) (negsuc b) = ground arith
sub-negative (pos (suc a)) (pos b) = ground arith
sub-negative (pos (suc a)) (negsuc b) = ground arith
sub-negative (negsuc a) (pos b) = ground arith
sub-negative (negsuc a) (negsuc b) = ground arith

-- Whatever the evidence delta says, the score delta is the difference of the two totals, and the
-- trend says which of the totals is larger.
pub classify_lem :
    (previous current : RiskSummary) (delta : EvidenceDelta)
    → (score_delta previous current delta ≡ current.total_score -ℤ previous.total_score)
      × (classify previous current delta ≡ (
          if lt_int previous.total_score current.total_score
          then increased
          else if lt_int current.total_score previous.total_score
          then decreased
          else unchanged))
unfolding classify
classify_lem previous current delta = (
  score_delta-eq previous current delta,
  ground (
    arith,
    score_delta-eq previous current delta,
    sub-positive previous.total_score current.total_score,
    sub-negative previous.total_score current.total_score,
  ),
)
