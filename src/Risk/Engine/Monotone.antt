-- ===== src/Risk/Engine/Monotone.antt =====
-- Assessments of less and of more evidence.
use chain_sentinel.Base.{
  ℕ, ◌≤◌, String, ◌≡◌, inl, inr, Bool, true, false, ◌||◌, List, [], ◌∷◌, ◌++◌, arith, Bool-cases,
  any, ok, ℤ, pos, negsuc, ◌+ℤ◌, le_int, le_int_add, le_int_refl,
}
use chain_sentinel.Evidence.Models.{RiskEvidence}
use chain_sentinel.Risk.Correlation.Index.{truthy_at}
use chain_sentinel.Risk.Correlation.Registry.{Registry, default_registry}
use chain_sentinel.Risk.Engine.{
  RiskLevel, ThreatLevel, CentralizationLevel, RiskAssessment, above, has_signal, is_confidence,
  tally, clamp, raw_score, score_to_level, weight_at, total_weight, evaluate_threat_level,
  evaluate_centralization_level, evaluate_from_evidence,
}
use chain_sentinel.Risk.Engine.Neutral.{raw_score-builtin}

-- How grave a level is.
abbrev pub risk_rank : RiskLevel → ℕ
risk_rank RiskLevel.low = 0
risk_rank RiskLevel.medium = 1
risk_rank RiskLevel.high = 2

abbrev pub threat_rank : ThreatLevel → ℕ
threat_rank ThreatLevel.low = 0
threat_rank ThreatLevel.medium = 1
threat_rank ThreatLevel.high = 2
threat_rank ThreatLevel.critical = 3

abbrev pub centralization_rank : CentralizationLevel → ℕ
centralization_rank CentralizationLevel.low = 0
centralization_rank CentralizationLevel.medium = 1
centralization_rank CentralizationLevel.high = 2

tally-snoc :
    (es : List RiskEvidence) (e : RiskEvidence) (score : ℤ) (reasons : List String)
    → le_int (pos 0) e.score ≡ true
    → le_int (tally es score reasons).0 (tally (es ++ e ∷ []) score reasons).0 ≡ true
unfolding tally
tally-snoc [] e score reasons h = elim (Bool-cases (is_confidence e)) [
  | inl skip_ ↦ rw skip_ (le_int_refl score)
  | inr counts ↦ rw counts (le_int_add score e.score h)
]
tally-snoc (x ∷ es) e score reasons h = elim (Bool-cases (is_confidence x)) [
  | inl skip_ ↦ rw skip_ (tally-snoc es e score reasons h)
  | inr counts ↦ rw counts (tally-snoc es e (score +ℤ x.score) _ h)
]

total_weight-snoc :
    (key : String) (es : List RiskEvidence) (e : RiskEvidence) (score : ℤ)
    → le_int (pos 0) (weight_at e key) ≡ true
    → le_int (total_weight key es score) (total_weight key (es ++ e ∷ []) score) ≡ true
unfolding total_weight
total_weight-snoc key [] e score h = le_int_add score (weight_at e key) h
total_weight-snoc key (x ∷ es) e score h = total_weight-snoc key es e (score +ℤ weight_at x key) h

clamp_mono : (a b : ℤ) → le_int a b ≡ true → le_int (clamp a) (clamp b) ≡ true
unfolding clamp
clamp_mono (pos m) (pos n) h = ground arith
clamp_mono (pos m) (negsuc n) h = cc
clamp_mono (negsuc m) (pos n) h = ground arith
clamp_mono (negsuc m) (negsuc n) h = ground arith

above_mono : (a b : ℤ) (n : ℕ) → le_int a b ≡ true → above a n ≡ true → above b n ≡ true
above_mono (pos m) (pos k) n h g = ground arith
above_mono (pos m) (negsuc k) n h g = cc
above_mono (negsuc m) (pos k) n h g = ground arith
above_mono (negsuc m) (negsuc k) n h g = ground arith

score_to_level_mono :
    (a b : ℤ) → le_int a b ≡ true → risk_rank (score_to_level a) ≤ risk_rank (score_to_level b)
unfolding score_to_level
score_to_level_mono a b h = ground (arith, above_mono a b 3300 h, above_mono a b 6600 h)

any-snoc :
    (p : RiskEvidence → Bool) (es : List RiskEvidence) (e : RiskEvidence)
    → any p (es ++ e ∷ []) ≡ (any p es || p e)
any-snoc p [] e = ground arith
any-snoc p (x ∷ es) e = ground (arith, any-snoc p es e)

any-before :
    (p : RiskEvidence → Bool) (es : List RiskEvidence) (e : RiskEvidence)
    → any p (es ++ e ∷ []) ≡ false
    → any p es ≡ false
any-before p es e h = ground (arith, any-snoc p es e)

has_signal-before :
    (es : List RiskEvidence) (e : RiskEvidence) (s : String)
    → has_signal (es ++ e ∷ []) s ≡ false
    → has_signal es s ≡ false
unfolding has_signal
has_signal-before es e s h = any-before _ es e h

threat_mono :
    (es : List RiskEvidence) (e : RiskEvidence)
    → le_int (pos 0) (weight_at e "threat_weight") ≡ true
    → threat_rank (evaluate_threat_level es) ≤ threat_rank (evaluate_threat_level (es ++ e ∷ []))
unfolding evaluate_threat_level
threat_mono es e h =
    let a = total_weight "threat_weight" es (pos 0) in
    let b = total_weight "threat_weight" (es ++ e ∷ []) (pos 0) in
    let more = total_weight-snoc "threat_weight" es e (pos 0) h in
    ground (
      arith,
      any-snoc (λ x. truthy_at x "force_threat_critical") es e,
      above_mono a b 74 more,
      above_mono a b 49 more,
      above_mono a b 24 more,
    )

centralization_mono :
    (es : List RiskEvidence) (e : RiskEvidence)
    → le_int (pos 0) (weight_at e "centralization_weight") ≡ true
    → centralization_rank (evaluate_centralization_level es)
      ≤ centralization_rank (evaluate_centralization_level (es ++ e ∷ []))
unfolding evaluate_centralization_level
centralization_mono es e h =
    let a = total_weight "centralization_weight" es (pos 0) in
    let b = total_weight "centralization_weight" (es ++ e ∷ []) (pos 0) in
    let more = total_weight-snoc "centralization_weight" es e (pos 0) h in
    ground (arith, above_mono a b 35 more, above_mono a b 20 more)

-- The second assessment is at least as grave as the first.
pub record IsGraver (a b : RiskAssessment) : Type 0 where
  pub score : le_int a.risk_score b.risk_score ≡ true
  pub level : risk_rank a.risk_level ≤ risk_rank b.risk_level
  pub threat : threat_rank a.threat_level ≤ threat_rank b.threat_level
  pub centralization :
      centralization_rank a.centralization_level ≤ centralization_rank b.centralization_level

-- With the built-in rules, an item of evidence whose score and weights are not negative, added to
-- evidence of a contract, lowers neither the score nor the risk, threat and centralization levels.
pub evaluate-IsGraver :
    (r : Registry) (evidence : List RiskEvidence) (e : RiskEvidence)
    → default_registry ≡ ok r
    → has_signal (evidence ++ e ∷ []) "not_contract" ≡ false
    → le_int (pos 0) e.score ≡ true
    → le_int (pos 0) (weight_at e "threat_weight") ≡ true
    → le_int (pos 0) (weight_at e "centralization_weight") ≡ true
    → IsGraver (evaluate_from_evidence r evidence) (evaluate_from_evidence r (evidence ++ e ∷ []))
unfolding evaluate_from_evidence
evaluate-IsGraver r evidence e builtin contract score threat central =
    let before : has_signal evidence "not_contract" ≡ false =
      has_signal-before evidence e "not_contract" contract in
    let more = clamp_mono (raw_score r evidence) (raw_score r (evidence ++ e ∷ [])) (
      rw (raw_score-builtin r evidence builtin, raw_score-builtin r (evidence ++ e ∷ []) builtin)
        (tally-snoc evidence e (pos 0) [] score)) in
    rw (before, contract)
      (record {
        score = more;
        level =
            score_to_level_mono (clamp (raw_score r evidence))
              (clamp (raw_score r (evidence ++ e ∷ []))) more;
        threat = threat_mono evidence e threat;
        centralization = centralization_mono evidence e central;
      })
