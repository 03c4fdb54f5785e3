-- ===== src/Reanalysis/Delta.antt =====
-- `DeltaBuilder` of continuous/reanalysis/delta_builder.py.
pub mod Same
pub mod Exact
use chain_sentinel.Base.{
  String, Bool, true, false, ◌&&◌, ◌||◌, not, none, some, List, [], ◌∷◌, ◌==◌, eqb, if◌then◌else◌,
  length, all, text_le, sort_by, mem, Dict, get, keys, ℤ, pos, eq_int,
}
use chain_sentinel.Evidence.Models.{
  EvidenceSeverity, ConfidenceLevel, Value, text, flag, amount, severity_value, RiskEvidence,
}
use chain_sentinel.RiskDelta.Classifier.{EvidenceDelta}
use chain_sentinel.Risk.Correlation.Index.{index_by_id, confidence_order}

-- `a == b` of two values, where a flag is the integer 0 or 1
abbrev pub flag_int : Bool → ℤ
flag_int true = pos 1
flag_int false = pos 0

abbrev pub eq_value : Value → Value → Bool
eq_value (text s) (text t) = s == t
eq_value (flag b) (flag c) = eq_int (flag_int b) (flag_int c)
eq_value (flag b) (amount y) = eq_int (flag_int b) y
eq_value (amount x) (flag c) = eq_int x (flag_int c)
eq_value (amount x) (amount y) = eq_int x y
eq_value _ _ = false

abbrev pub holds_value : Dict Value → String → Value → Bool
holds_value d k v = elim (get d k) [ none ↦ false | some w ↦ eq_value w v ]

-- `d == e` of two dictionaries, whatever their order
abbrev pub eq_metadata : Dict Value → Dict Value → Bool
eq_metadata d e = eqb (length d) (length e) && all (λ x. holds_value e x.0 x.1) d

unfoldable pub evidence_changed : RiskEvidence → RiskEvidence → Bool
evidence_changed before after =
    not (eq_int before.score after.score)
    || (not (severity_value before.severity == severity_value after.severity)
        || (not (eqb (confidence_order before.confidence) (confidence_order after.confidence))
            || (not (before.reason == after.reason)
                || not (eq_metadata before.metadata after.metadata))))

-- `sorted(index.items())`: the keys are different, so they alone decide.
abbrev pub sorted_items : Dict RiskEvidence → Dict RiskEvidence
sorted_items d = sort_by (λ a b. text_le a.0 b.0) d

-- The loop over the current items.
unfoldable pub added_items : Dict RiskEvidence → Dict RiskEvidence → List RiskEvidence
added_items previous [] = []
added_items previous ((k, item) ∷ items) = elim (get previous k) [
  | none ↦ item ∷ added_items previous items
  | some prior ↦ added_items previous items
]

unfoldable pub updated_items :
    Dict RiskEvidence → Dict RiskEvidence → List (RiskEvidence × RiskEvidence)
unfolding evidence_changed
updated_items previous [] = []
updated_items previous ((k, item) ∷ items) = elim (get previous k) [
  | none ↦ updated_items previous items
  | some prior ↦
      if evidence_changed prior item
      then (prior, item) ∷ updated_items previous items
      else updated_items previous items
]

-- The loop over the previous items.
unfoldable pub removed_items : Dict RiskEvidence → Dict RiskEvidence → List RiskEvidence
removed_items current [] = []
removed_items current ((k, item) ∷ items) =
    if mem k (keys current) then removed_items current items else item ∷ removed_items current items

unfoldable pub build : List RiskEvidence → List RiskEvidence → EvidenceDelta
unfolding added_items updated_items removed_items index_by_id
build previous current =
    let previous_index = index_by_id previous [] in
    let current_index = index_by_id current [] in
    record {
      added = added_items previous_index (sorted_items current_index);
      removed = removed_items current_index (sorted_items previous_index);
      updated = updated_items previous_index (sorted_items current_index);
    }
