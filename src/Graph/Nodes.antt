-- ===== src/Graph/Nodes.antt =====
-- protocol_graph/node_classifier.py: the nodes of a graph from the contracts that were discovered.
use chain_sentinel.Base.{
  String, Bool, true, false, Option, none, some, List, [], ◌∷◌, map, ◌==◌, if◌then◌else◌, sort_by,
  Dict, get, put, values, ℤ, pos, le_int, pair_le,
}
use chain_sentinel.Evidence.Models.{Value, text, flag, amount}
use chain_sentinel.Graph.Models.{
  ProtocolRole, ProtocolNode, ProtocolContract, ProtocolDiscoveryResult, role_value,
}

-- `value == metadata.get(key)`
abbrev equals_text : String → Option Value → Bool
equals_text s (some (text t)) = s == t
equals_text s _ = false

-- `address == metadata.get("root_address") or metadata.get("is_root", False)`
abbrev is_root : ProtocolContract → Value
is_root c =
    if equals_text c.address (get c.metadata "root_address")
    then flag true
    else elim (get c.metadata "is_root") [ none ↦ flag false | some v ↦ v ]

unfoldable pub classify_contract : ProtocolContract → String → String → ProtocolNode
classify_contract c protocol_name protocol_family = record {
  address = c.address;
  role = c.role;
  protocol_name = protocol_name;
  metadata =
      put
        (put
          (put (put c.metadata "confidence" (amount (pos c.confidence))) "detection_source"
            (text c.detection_source))
          "protocol_family" (text protocol_family))
        "is_root" (is_root c);
}

-- `metadata.get("confidence", 0)`: `classify_contract` always puts an integer there.
abbrev pub score_of : ProtocolNode → ℤ
score_of n = elim (get n.metadata "confidence") [ some (amount c) ↦ c | _ ↦ pos 0 ]

-- One round of the loop of `_dedupe_nodes`.
unfoldable pub keep_best_node : Dict ProtocolNode → ProtocolNode → Dict ProtocolNode
keep_best_node best n = elim (get best n.address) [
  | none ↦ put best n.address n
  | some existing ↦ if le_int (score_of existing) (score_of n) then put best n.address n else best
]

unfoldable pub best_nodes : List ProtocolNode → Dict ProtocolNode → Dict ProtocolNode
unfolding keep_best_node
best_nodes [] best = best
best_nodes (n ∷ ns) best = best_nodes ns (keep_best_node best n)

abbrev pub node_le : ProtocolNode → ProtocolNode → Bool
node_le a b = pair_le (role_value a.role, a.address) (role_value b.role, b.address)

unfoldable pub dedupe_nodes : List ProtocolNode → List ProtocolNode
unfolding best_nodes
dedupe_nodes nodes = sort_by node_le (values (best_nodes nodes []))

unfoldable pub build_nodes : ProtocolDiscoveryResult → List ProtocolNode
unfolding dedupe_nodes classify_contract
build_nodes d =
    dedupe_nodes (map (λ c. classify_contract c d.protocol_name d.protocol_family) d.contracts)

-- `role if role != UNKNOWN else ROOT`
abbrev known_role : ProtocolRole → ProtocolRole
known_role ProtocolRole.unknown = ProtocolRole.root
known_role r = r

unfoldable pub mark_node : String → ProtocolNode → ProtocolNode
mark_node root_address n =
    if n.address == root_address
    then record n {
      role = known_role n.role;
      metadata = put (put n.metadata "is_root" (flag true)) "root_address" (text root_address);
    }
    else record n { metadata = put n.metadata "root_address" (text root_address) }

unfoldable pub mark_root_node : List ProtocolNode → String → List ProtocolNode
unfolding mark_node
mark_root_node nodes root_address = map (mark_node root_address) nodes
