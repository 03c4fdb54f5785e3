-- ===== src/Risk/Evidence.antt =====
-- blockchain/risk/evidence.py.
pub mod Merged
use chain_sentinel.Base.{String, List, [], ◌∷◌, ◌++◌, if◌then◌else◌, mem, add, Dict, ◌⧺◌, ℤ}
use chain_sentinel.Evidence.Models.{
  EvidenceSource, EvidenceCategory, EvidenceSeverity, ConfidenceLevel, Value, RiskEvidence,
}

abbrev source_value : EvidenceSource → String
source_value EvidenceSource.governance = "governance"
source_value EvidenceSource.liquidity = "liquidity"
source_value EvidenceSource.wallet = "wallet"
source_value EvidenceSource.protocol = "protocol"
source_value EvidenceSource.relationship = "relationship"
source_value EvidenceSource.threat_surface = "threat_surface"
source_value EvidenceSource.proxy = "proxy"
source_value EvidenceSource.capability = "capability"
source_value EvidenceSource.honeypot = "honeypot"
source_value EvidenceSource.simulation = "simulation"
source_value EvidenceSource.classification = "classification"
source_value EvidenceSource.system = "system"

abbrev category_value : EvidenceCategory → String
category_value EvidenceCategory.upgradeability = "upgradeability"
category_value EvidenceCategory.authority = "authority"
category_value EvidenceCategory.capability = "capability"
category_value EvidenceCategory.honeypot = "honeypot"
category_value EvidenceCategory.liquidity = "liquidity"
category_value EvidenceCategory.wallet = "wallet"
category_value EvidenceCategory.protocol = "protocol"
category_value EvidenceCategory.relationship = "relationship"
category_value EvidenceCategory.threat = "threat"
category_value EvidenceCategory.classification = "classification"
category_value EvidenceCategory.confidence = "confidence"
category_value EvidenceCategory.system = "system"

unfoldable pub evidence_id : EvidenceSource → EvidenceCategory → String → String
evidence_id source category signal =
    source_value source ⧺ (":" ⧺ (category_value category ⧺ (":" ⧺ signal)))

-- The score is given in hundredths; the time of creation is left out.
unfoldable pub create_evidence :
    EvidenceSource
    → EvidenceCategory
    → String
    → EvidenceSeverity
    → ℤ
    → ConfidenceLevel
    → String
    → Dict Value
    → RiskEvidence
unfolding evidence_id
create_evidence source category signal severity score confidence reason metadata = record {
  id = evidence_id source category signal;
  source = source;
  category = category;
  severity = severity;
  score = score;
  confidence = confidence;
  reason = reason;
  metadata = metadata;
}

-- The inner loop of `merge_evidence`: the set of ids, and what is merged.
unfoldable pub merge_group :
    List RiskEvidence → List String → List RiskEvidence → List String × List RiskEvidence
merge_group [] seen merged = (seen, merged)
merge_group (item ∷ group) seen merged =
    if mem item.id seen
    then merge_group group seen merged
    else merge_group group (add item.id seen) (merged ++ item ∷ [])

unfoldable pub merge_groups :
    List (List RiskEvidence) → List String → List RiskEvidence → List RiskEvidence
unfolding merge_group
merge_groups [] seen merged = merged
merge_groups (group ∷ groups) seen merged =
    let (seen', merged') = merge_group group seen merged in merge_groups groups seen' merged'

unfoldable pub merge_evidence : List (List RiskEvidence) → List RiskEvidence
unfolding merge_groups
merge_evidence groups = merge_groups groups [] []
