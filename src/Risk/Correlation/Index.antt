-- ===== src/Risk/Correlation/Index.antt =====
-- blockchain/risk/correlation/evidence_index.py.
pub mod Lookup
use chain_sentinel.Base.{
  ℕ, String, Bool, true, false, ◌||◌, not, Option, none, some, List, [], ◌∷◌, ◌++◌, ◌==◌, ltb,
  if◌then◌else◌, any, mem, Dict, get, put, keys, starts_with, pos, eq_int, starts_with, ltb,
}
use chain_sentinel.Evidence.Models.{ConfidenceLevel, Value, text, flag, amount, RiskEvidence}

pub record EvidenceIndex : Type 0 where
  pub evidence : List RiskEvidence
  pub by_id : Dict RiskEvidence
  pub by_signal : Dict (List RiskEvidence)

-- `metadata.get("signal")`, where it is a text
abbrev pub signal_of : RiskEvidence → Option String
signal_of e = elim (get e.metadata "signal") [ some (text s) ↦ some s | _ ↦ none ]

abbrev pub items_at : Dict (List RiskEvidence) → String → List RiskEvidence
items_at d s = elim (get d s) [ none ↦ [] | some items ↦ items ]

unfoldable pub index_by_id : List RiskEvidence → Dict RiskEvidence → Dict RiskEvidence
index_by_id [] d = d
index_by_id (e ∷ es) d = index_by_id es (put d e.id e)

unfoldable pub index_signal : RiskEvidence → Dict (List RiskEvidence) → Dict (List RiskEvidence)
index_signal e d = elim (signal_of e) [ none ↦ d | some s ↦ put d s (items_at d s ++ e ∷ []) ]

unfoldable pub index_by_signal :
    List RiskEvidence → Dict (List RiskEvidence) → Dict (List RiskEvidence)
unfolding index_signal
index_by_signal [] d = d
index_by_signal (e ∷ es) d = index_by_signal es (index_signal e d)

unfoldable pub evidence_index : List RiskEvidence → EvidenceIndex
unfolding index_by_id index_by_signal
evidence_index evidence = record {
  evidence = evidence;
  by_id = index_by_id evidence [];
  by_signal = index_by_signal evidence [];
}

unfoldable pub get_item : EvidenceIndex → String → Option RiskEvidence
get_item index evidence_id = get index.by_id evidence_id

unfoldable pub has_signal : EvidenceIndex → String → Bool
has_signal index signal = mem signal (keys index.by_signal)

unfoldable pub items_with_signal : EvidenceIndex → String → List RiskEvidence
items_with_signal index signal = items_at index.by_signal signal

unfoldable pub has_any_signal : EvidenceIndex → List String → Bool
unfolding has_signal
has_any_signal index signals = any (has_signal index) signals

unfoldable pub has_signal_prefix : EvidenceIndex → String → Bool
has_signal_prefix index prefix = any (λ s. starts_with prefix s) (keys index.by_signal)

-- `bool(metadata.get(key))`
abbrev pub truthy_at : RiskEvidence → String → Bool
truthy_at e key = elim (get e.metadata key) [
  | none ↦ false
  | some (text s) ↦ not (s == "")
  | some (flag b) ↦ b
  | some (amount z) ↦ not (eq_int z (pos 0))
]

-- `value in {None, "eoa"}`
abbrev is_none_or_eoa : Option Value → Bool
is_none_or_eoa none = true
is_none_or_eoa (some (text s)) = s == "eoa"
is_none_or_eoa (some v) = false

-- `owner_type if owner_type is not None else admin_type`
abbrev effective_type : RiskEvidence → Option Value
effective_type e = elim (get e.metadata "owner_type") [
  | none ↦ get e.metadata "admin_type"
  | some v ↦ some v
]

-- The loop over the items about the admin.
unfoldable pub any_eoa_admin : List RiskEvidence → Bool
any_eoa_admin [] = false
any_eoa_admin (item ∷ items) =
    if truthy_at item "is_timelock"
    then false
    else if is_none_or_eoa (effective_type item)
    then true
    else any_eoa_admin items

abbrev pub is_empty {ℓ} : {A : Type ℓ} → List A → Bool
is_empty [] = true
is_empty (x ∷ xs) = false

unfoldable pub has_admin_eoa_without_timelock : EvidenceIndex → Bool
unfolding items_with_signal has_signal any_eoa_admin
has_admin_eoa_without_timelock index =
    if is_empty (items_with_signal index "admin_address")
    then false
    else if has_signal index "has_timelock"
    then false
    else any_eoa_admin (items_with_signal index "admin_address")

unfoldable pub has_upgrade_authority : EvidenceIndex → Bool
unfolding has_signal
has_upgrade_authority index = has_signal index "admin_address" || has_signal index "is_upgradeable"

abbrev pub capability_signals : List String
capability_signals =
    "mint_capability" ∷ "pause_capability" ∷ "blacklist_capability" ∷ "ownership_capability" ∷ []

unfoldable pub has_admin_capability : EvidenceIndex → Bool
unfolding has_any_signal
has_admin_capability index = has_any_signal index capability_signals

unfoldable pub has_low_wallet_reputation : EvidenceIndex → Bool
unfolding has_any_signal
has_low_wallet_reputation index =
    has_any_signal index ("wallet_known_scam" ∷ "tornado_funded_deployer" ∷ [])

abbrev pub confidence_order : ConfidenceLevel → ℕ
confidence_order ConfidenceLevel.low = 0
confidence_order ConfidenceLevel.medium = 1
confidence_order ConfidenceLevel.high = 2

-- `min(items, key=...)`: the first of the least.
unfoldable pub least_confident : RiskEvidence → List RiskEvidence → RiskEvidence
least_confident best [] = best
least_confident best (item ∷ items) =
    if ltb (confidence_order item.confidence) (confidence_order best.confidence)
    then least_confident item items
    else least_confident best items

unfoldable pub aggregate_confidence : List RiskEvidence → ConfidenceLevel
unfolding least_confident
aggregate_confidence [] = ConfidenceLevel.low
aggregate_confidence (item ∷ items) = (least_confident item items).confidence
