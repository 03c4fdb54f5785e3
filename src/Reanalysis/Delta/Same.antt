-- ===== src/Reanalysis/Delta/Same.antt =====
-- When two items of evidence with one id are the same for the evidence delta.
use chain_sentinel.Base.{
  ℕ, zero, suc, String, ◌≡◌, refl, sym, ap, ◌∙◌, ◌↔◌, inl, inr, Bool, true, false, ◌||◌, not,
  Option, none, some, [], ◌∷◌, arith, ◌==◌, eq_iff, eqb, if◌then◌else◌, Option-cases, length, all,
  All, Dict, get, ℤ, pos, negsuc, eq_int,
}
use chain_sentinel.Evidence.Models.{
  EvidenceSeverity, ConfidenceLevel, Value, text, flag, amount, severity_value, RiskEvidence,
}
use chain_sentinel.Risk.Correlation.Index.{confidence_order}
use chain_sentinel.Reanalysis.Delta.{eq_value, holds_value, eq_metadata, evidence_changed}

-- A value as Python compares it: a flag is the integer 0 or 1.
abbrev pub plain : Value → Value
plain (text s) = text s
plain (flag true) = amount (pos 1)
plain (flag false) = amount (pos 0)
plain (amount z) = amount z

-- Every entry of the first is in the second with the same value, and they have as many.
abbrev pub SameMetadata : Dict Value → Dict Value → Type 0
SameMetadata d e =
    (length d ≡ length e) × All (λ x. (w : Value) × (get e x.0 ≡ some w) × (plain w ≡ plain x.1)) d

pub record SameItem (before after : RiskEvidence) : Type 0 where
  pub score : before.score ≡ after.score
  pub severity : before.severity ≡ after.severity
  pub confidence : before.confidence ≡ after.confidence
  pub reason : before.reason ≡ after.reason
  pub metadata : SameMetadata before.metadata after.metadata

eq_int_iff : (a b : ℤ) → (eq_int a b ≡ true) ↔ (a ≡ b)
eq_int_iff (pos a) (pos b) = (λ e. ap pos (ground arith), λ e. ground arith)
eq_int_iff (pos a) (negsuc b) = (λ e. cc, λ e. cc)
eq_int_iff (negsuc a) (pos b) = (λ e. cc, λ e. cc)
eq_int_iff (negsuc a) (negsuc b) = (λ e. ap negsuc (ground arith), λ e. ground arith)

amount_iff : (x y : ℤ) → (eq_int x y ≡ true) ↔ (amount x ≡ amount y)
amount_iff x y = (λ e. ap amount ((eq_int_iff x y).0 e), λ e. (eq_int_iff x y).1 (cc))

eq_value-plain : (v w : Value) → (eq_value v w ≡ true) ↔ (plain v ≡ plain w)
eq_value-plain (text s) (text t) = (λ e. ap text ((eq_iff s t).0 e), λ e. (eq_iff s t).1 (cc))
eq_value-plain (text s) (flag true) = (λ e. cc, λ e. cc)
eq_value-plain (text s) (flag false) = (λ e. cc, λ e. cc)
eq_value-plain (text s) (amount y) = (λ e. cc, λ e. cc)
eq_value-plain (flag true) (text t) = (λ e. cc, λ e. cc)
eq_value-plain (flag false) (text t) = (λ e. cc, λ e. cc)
eq_value-plain (flag true) (flag true) = amount_iff (pos 1) (pos 1)
eq_value-plain (flag true) (flag false) = amount_iff (pos 1) (pos 0)
eq_value-plain (flag false) (flag true) = amount_iff (pos 0) (pos 1)
eq_value-plain (flag false) (flag false) = amount_iff (pos 0) (pos 0)
eq_value-plain (flag true) (amount y) = amount_iff (pos 1) y
eq_value-plain (flag false) (amount y) = amount_iff (pos 0) y
eq_value-plain (amount x) (text t) = (λ e. cc, λ e. cc)
eq_value-plain (amount x) (flag true) = amount_iff x (pos 1)
eq_value-plain (amount x) (flag false) = amount_iff x (pos 0)
eq_value-plain (amount x) (amount y) = amount_iff x y

value_or : Value → Option Value → Value
value_or v none = v
value_or v (some w) = w

some_injective : (v w : Value) → some v ≡ some w → v ≡ w
unfolding value_or
some_injective v w e = ap (value_or v) e

holds_all :
    (d e : Dict Value)
    → (all (λ x. holds_value e x.0 x.1) d ≡ true)
      ↔ All (λ x. (w : Value) × (get e x.0 ≡ some w) × (plain w ≡ plain x.1)) d
holds_all [] e = (λ h. tt, λ h. refl)
holds_all ((k, v) ∷ d) e =
    let (there, back) = holds_all d e in
    elim (Option-cases (get e k)) [
      | inl absent ↦
          let lost : holds_value e k v ≡ false = rw (absent, holds_value) refl in
          (
            λ h. absurd (ground (arith, lost)),
            λ h.
                let (w, found, same) = h.0 in
                let never : none ≡ some w = sym absent ∙ found in absurd cc,
          )
      | inr (w, found) ↦
          let same = eq_value-plain w v in
          let held : holds_value e k v ≡ eq_value w v = rw (found, holds_value) refl in
          (
            λ h. ((w, found, same.0 (ground (arith, held))), there (ground (arith, held))),
            λ h.
                let (w', found', same') = h.0 in
                let now : w ≡ w' = some_injective w w' (sym found ∙ found') in
                let first = same.1 (ap plain now ∙ same') in
                let rest = back h.1 in ground (arith, held),
          )
    ]

-- The severity and the confidence again, from what they are compared by.
abbrev severity_named : String → EvidenceSeverity
severity_named s =
    if s == "info"
    then EvidenceSeverity.info
    else if s == "low"
    then EvidenceSeverity.low
    else if s == "medium"
    then EvidenceSeverity.medium
    else if s == "high"
    then EvidenceSeverity.high
    else EvidenceSeverity.critical

severity_named-value : (a : EvidenceSeverity) → severity_named (severity_value a) ≡ a
severity_named-value EvidenceSeverity.info = refl
severity_named-value EvidenceSeverity.low = refl
severity_named-value EvidenceSeverity.medium = refl
severity_named-value EvidenceSeverity.high = refl
severity_named-value EvidenceSeverity.critical = refl

severity-injective : (a b : EvidenceSeverity) → severity_value a ≡ severity_value b → a ≡ b
severity-injective a b e =
    sym (severity_named-value a) ∙ ap severity_named e ∙ severity_named-value b

abbrev confidence_at : ℕ → ConfidenceLevel
confidence_at zero = ConfidenceLevel.low
confidence_at (suc zero) = ConfidenceLevel.medium
confidence_at (suc (suc n)) = ConfidenceLevel.high

confidence_at-order : (a : ConfidenceLevel) → confidence_at (confidence_order a) ≡ a
confidence_at-order ConfidenceLevel.low = refl
confidence_at-order ConfidenceLevel.medium = refl
confidence_at-order ConfidenceLevel.high = refl

confidence-injective : (a b : ConfidenceLevel) → confidence_order a ≡ confidence_order b → a ≡ b
confidence-injective a b e =
    sym (confidence_at-order a) ∙ ap confidence_at e ∙ confidence_at-order b

or_four :
    (a b c d e : Bool)
    → ((not a || (not b || (not c || (not d || not e)))) ≡ false)
      ↔ ((a ≡ true) × (b ≡ true) × (c ≡ true) × (d ≡ true) × (e ≡ true))
or_four a b c d e = (
  λ h. (ground arith, ground arith, ground arith, ground arith, ground arith),
  λ h. ground (arith, h.0, h.1),
)

eqb→eq : (a b : ℕ) → eqb a b ≡ true → a ≡ b
eqb→eq a b h = ground arith

eq→eqb : (a b : ℕ) → a ≡ b → eqb a b ≡ true
eq→eqb a b h = ground arith

eq_metadata-Same : (d e : Dict Value) → (eq_metadata d e ≡ true) ↔ SameMetadata d e
eq_metadata-Same d e =
    let (there, back) = holds_all d e in
    (
      λ h. (ground arith, there (ground arith)),
      λ h. let all_held = back h.1 in let long = h.0 in ground arith,
    )

pub evidence_changed-SameItem :
    (before after : RiskEvidence) → (evidence_changed before after ≡ false) ↔ SameItem before after
unfolding evidence_changed
evidence_changed-SameItem before after =
    let score = eq_int_iff before.score after.score in
    let metadata = eq_metadata-Same before.metadata after.metadata in
    let reason = eq_iff before.reason after.reason in
    let severity = eq_iff (severity_value before.severity) (severity_value after.severity) in
    let parts =
      or_four (eq_int before.score after.score)
        (severity_value before.severity == severity_value after.severity)
        (eqb (confidence_order before.confidence) (confidence_order after.confidence))
        (before.reason == after.reason) (eq_metadata before.metadata after.metadata) in
    (
      λ h.
          let (a, b, c, d, e) = parts.0 h in
          record {
            score = score.0 a;
            severity = severity-injective before.severity after.severity (severity.0 b);
            confidence =
                confidence-injective before.confidence after.confidence (
                  eqb→eq (confidence_order before.confidence) (confidence_order after.confidence)
                    c);
            reason = reason.0 d;
            metadata = metadata.0 e;
          },
      λ h. parts.1 (
        score.1 h.score,
        severity.1 (ap severity_value h.severity),
        eq→eqb (confidence_order before.confidence) (confidence_order after.confidence)
            (ap confidence_order h.confidence),
        reason.1 h.reason,
        metadata.1 h.metadata,
      ),
    )
