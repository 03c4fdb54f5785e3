-- ===== src/Risk/Engine.antt =====
-- `RiskEngine` of services/risk_engine.py, with the thresholds of risk/scoring_weights.py. A score
-- is a number of hundredths, a weight an integer.
pub mod Bounds
pub mod Neutral
pub mod Monotone
use chain_sentinel.Base.{
  ℕ, String, Bool, true, false, ◌||◌, not, Option, some, List, [], ◌∷◌, ◌++◌, ◌==◌, if◌then◌else◌,
  any, get, ℤ, pos, ◌+ℤ◌, le_int, eq_int,
}
use chain_sentinel.Evidence.Models.{
  EvidenceCategory, ConfidenceLevel, Value, text, flag, amount, RiskEvidence,
}
use chain_sentinel.Risk.Correlation.{CorrelatedRiskFinding}
use chain_sentinel.Risk.Correlation.Index.{truthy_at}
use chain_sentinel.Risk.Correlation.Registry.{Registry}
use chain_sentinel.Risk.Correlation.Matcher.{correlate}

-- The levels that the code names.
pub data RiskLevel : Type 0 where
  low medium high : RiskLevel

pub data ThreatLevel : Type 0 where
  low medium high critical : ThreatLevel

pub data CentralizationLevel : Type 0 where
  low medium high : CentralizationLevel

pub record RiskAssessment : Type 0 where
  pub risk_score : ℤ
  pub risk_level : RiskLevel
  pub risk_reasons : List String
  pub threat_level : ThreatLevel
  pub centralization_level : CentralizationLevel
  pub confidence_level : ConfidenceLevel

-- `score > bound`
abbrev pub above : ℤ → ℕ → Bool
above score bound = not (le_int score (pos bound))

abbrev has_text : String → Option Value → Bool
has_text s (some (text t)) = t == s
has_text s _ = false

unfoldable pub has_signal : List RiskEvidence → String → Bool
has_signal evidence signal = any (λ e. has_text signal (get e.metadata "signal")) evidence

abbrev pub is_confidence : RiskEvidence → Bool
is_confidence e = elim e.category [ EvidenceCategory.confidence ↦ true | _ ↦ false ]

-- The loop over the evidence: the score and the reasons.
unfoldable pub tally : List RiskEvidence → ℤ → List String → ℤ × List String
tally [] score reasons = (score, reasons)
tally (e ∷ evidence) score reasons =
    if is_confidence e
    then tally evidence score reasons
    else tally evidence (score +ℤ e.score) (
        if not (eq_int e.score (pos 0)) || truthy_at e "reason_only"
        then reasons ++ e.reason ∷ []
        else reasons)

unfoldable pub add_deltas : List CorrelatedRiskFinding → ℤ → ℤ
add_deltas [] score = score
add_deltas (f ∷ findings) score = add_deltas findings (score +ℤ f.score_delta)

unfoldable pub clamp : ℤ → ℤ
clamp score =
    let capped : ℤ = if above score 10000 then pos 10000 else score in
    if le_int (pos 0) capped then capped else pos 0

-- LOW_MAX and MEDIUM_MAX
unfoldable pub score_to_level : ℤ → RiskLevel
score_to_level score =
    if le_int score (pos 3300)
    then RiskLevel.low
    else if le_int score (pos 6600)
    then RiskLevel.medium
    else RiskLevel.high

-- `int(weight)` where it is a number, which a flag is too; else nothing is added.
abbrev pub weight_at : RiskEvidence → String → ℤ
weight_at e key = elim (get e.metadata key) [
  | some (amount w) ↦ w
  | some (flag b) ↦ if b then pos 1 else pos 0
  | _ ↦ pos 0
]

unfoldable pub total_weight : String → List RiskEvidence → ℤ → ℤ
total_weight key [] score = score
total_weight key (e ∷ evidence) score = total_weight key evidence (score +ℤ weight_at e key)

unfoldable pub evaluate_threat_level : List RiskEvidence → ThreatLevel
unfolding total_weight
evaluate_threat_level evidence =
    let score = total_weight "threat_weight" evidence (pos 0) in
    if any (λ e. truthy_at e "force_threat_critical") evidence
    then ThreatLevel.critical
    else if above score 74
    then ThreatLevel.critical
    else if above score 49
    then ThreatLevel.high
    else if above score 24
    then ThreatLevel.medium
    else ThreatLevel.low

unfoldable pub evaluate_centralization_level : List RiskEvidence → CentralizationLevel
unfolding total_weight
evaluate_centralization_level evidence =
    let score = total_weight "centralization_weight" evidence (pos 0) in
    if above score 35
    then CentralizationLevel.high
    else if above score 20
    then CentralizationLevel.medium
    else CentralizationLevel.low

-- CONFIDENCE_MEDIUM_MAX and CONFIDENCE_LOW_MAX
abbrev pub confidence_of : ℤ → ConfidenceLevel
confidence_of score =
    if above score 64
    then ConfidenceLevel.high
    else if above score 39
    then ConfidenceLevel.medium
    else ConfidenceLevel.low

unfoldable pub evaluate_confidence_level : List RiskEvidence → ConfidenceLevel
unfolding total_weight
evaluate_confidence_level evidence =
    confidence_of (total_weight "confidence_weight" evidence (pos 0))

-- CONFIDENCE_EOA_CONFIRMED against the same bounds
unfoldable pub confidence_for_eoa : ConfidenceLevel
confidence_for_eoa = confidence_of (pos 45)

abbrev pub or_default : List String → List String
or_default [] = "No upgradeability indicators detected" ∷ []
or_default (r ∷ reasons) = r ∷ reasons

-- The score before it is clamped.
unfoldable pub raw_score : Registry → List RiskEvidence → ℤ
unfolding tally add_deltas correlate
raw_score registry evidence =
    add_deltas (correlate registry evidence).findings (tally evidence (pos 0) []).0

unfoldable pub evaluate_from_evidence : Registry → List RiskEvidence → RiskAssessment
unfolding has_signal raw_score tally clamp score_to_level evaluate_threat_level
    evaluate_centralization_level evaluate_confidence_level confidence_for_eoa
evaluate_from_evidence registry evidence =
    let score = clamp (raw_score registry evidence) in
    if has_signal evidence "not_contract"
    then record {
      risk_score = pos 0;
      risk_level = RiskLevel.low;
      risk_reasons = "Target address has no contract bytecode" ∷ [];
      threat_level = ThreatLevel.low;
      centralization_level = CentralizationLevel.low;
      confidence_level = confidence_for_eoa;
    }
    else record {
      risk_score = score;
      risk_level = score_to_level score;
      risk_reasons = or_default (tally evidence (pos 0) []).1;
      threat_level = evaluate_threat_level evidence;
      centralization_level = evaluate_centralization_level evidence;
      confidence_level = evaluate_confidence_level evidence;
    }
