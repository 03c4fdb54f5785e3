-- ===== src/Graph/Edges.antt =====
-- protocol_graph/edge_builder.py: the edges of a graph, from relationships and inferred links.
use chain_sentinel.Base.{
  min, String, Bool, true, false, ◌&&◌, not, Option, none, some, List, [], ◌∷◌, ◌++◌, map, ◌==◌,
  ltb, if◌then◌else◌, filter, any, text_le, lower, sort_by, mem, Dict, get, put, pair_le, filter,
  ltb,
}
use chain_sentinel.Evidence.Models.{Value, text}
use chain_sentinel.Graph.Models.{
  ProtocolRole, GraphEdgeType, ProtocolRelationshipType, ProtocolContract, ProtocolRelationship,
  ProtocolDiscoveryResult, ProtocolEdge, edge_type_value,
}

-- `_DISCOVERY_EDGE_MAP`, which has every type of relationship
unfoldable pub discovery_edge : ProtocolRelationshipType → GraphEdgeType
discovery_edge ProtocolRelationshipType.proxy_to_implementation =
    GraphEdgeType.proxy_to_implementation
discovery_edge ProtocolRelationshipType.governor_to_timelock = GraphEdgeType.governor_to_timelock
discovery_edge ProtocolRelationshipType.router_to_factory = GraphEdgeType.router_to_factory
discovery_edge ProtocolRelationshipType.factory_to_pool = GraphEdgeType.factory_to_pool
discovery_edge ProtocolRelationshipType.vault_to_strategy = GraphEdgeType.vault_to_strategy
discovery_edge ProtocolRelationshipType.token_to_treasury = GraphEdgeType.token_to_treasury
discovery_edge ProtocolRelationshipType.bridge_to_messenger = GraphEdgeType.bridge_to_messenger

unfoldable pub from_relationship : ProtocolRelationship → ProtocolEdge
unfolding discovery_edge
from_relationship r = record {
  source = r.source_address;
  target = r.target_address;
  relationship_type = discovery_edge r.relationship_type;
  confidence = r.confidence;
}

-- `contract.address for contract in contracts`
abbrev pub contract_addresses : List ProtocolContract → List String
contract_addresses cs = map (λ c. c.address) cs

-- `contracts_by_address`: the last contract of an address counts.
unfoldable pub by_address : List ProtocolContract → Dict ProtocolContract → Dict ProtocolContract
by_address [] d = d
by_address (c ∷ cs) d = by_address cs (put d c.address c)

-- `metadata.get(key)` where it is a text, in lower case
abbrev pub text_at : Dict Value → String → Option String
text_at d key = elim (get d key) [ some (text t) ↦ some (lower t) | _ ↦ none ]

abbrev pub is_proxy_or_root : ProtocolRole → Bool
is_proxy_or_root ProtocolRole.proxy = true
is_proxy_or_root ProtocolRole.root = true
is_proxy_or_root _ = false

abbrev pub is_oracle : ProtocolRole → Bool
is_oracle ProtocolRole.oracle = true
is_oracle _ = false

-- The edge from the admin of a contract, if both are known.
unfoldable pub admin_edge : Dict ProtocolContract → ProtocolContract → List ProtocolEdge
admin_edge known c =
    if is_proxy_or_root c.role
    then elim (text_at c.metadata "admin_address") [
      | none ↦ []
      | some admin_address ↦ elim (get known admin_address) [
        | none ↦ []
        | some admin ↦
            record {
              source = admin_address;
              target = c.address;
              relationship_type = GraphEdgeType.admin_to_proxy;
              confidence = min c.confidence admin.confidence;
            }
            ∷ []
      ]
    ]
    else []

unfoldable pub oracle_edge : String → ProtocolContract → List ProtocolEdge
oracle_edge root c =
    if is_oracle c.role
    then record {
      source = c.address;
      target = root;
      relationship_type = GraphEdgeType.oracle_to_protocol;
      confidence = c.confidence;
    }
      ∷ []
    else []

-- `(source, target) in existing_pairs`
abbrev pub has_pair : List ProtocolRelationship → String → String → Bool
has_pair rs s t = any (λ r. r.source_address == s && r.target_address == t) rs

unfoldable pub depends_edge :
    List ProtocolRelationship → List String → String → ProtocolContract → List ProtocolEdge
depends_edge relationships known root c =
    if c.address == root then [] else elim (text_at c.metadata "depends_on") [
      | none ↦ []
      | some target ↦
          if mem target known && not (has_pair relationships c.address target)
          then record {
            source = c.address;
            target = target;
            relationship_type = GraphEdgeType.depends_on;
            confidence = c.confidence;
          }
            ∷ []
          else []
    ]

-- The edges of one loop over the contracts.
abbrev pub concat_map {ℓ κ} : {A : Type ℓ} {B : Type κ} → (A → List B) → List A → List B
concat_map f [] = []
concat_map f (x ∷ xs) = f x ++ concat_map f xs

unfoldable pub infer_admin_to_proxy : ProtocolDiscoveryResult → List ProtocolEdge
unfolding admin_edge by_address
infer_admin_to_proxy d = concat_map (admin_edge (by_address d.contracts [])) d.contracts

unfoldable pub infer_oracle_to_protocol : ProtocolDiscoveryResult → List ProtocolEdge
unfolding oracle_edge
infer_oracle_to_protocol d = concat_map (oracle_edge (lower d.root_address)) d.contracts

unfoldable pub infer_depends_on : ProtocolDiscoveryResult → List String → List ProtocolEdge
unfolding depends_edge
infer_depends_on d known =
    concat_map (depends_edge d.relationships known (lower d.root_address)) d.contracts

-- `_dedupe_edges` keys its dictionary by source, target and type: its values alone tell the keys.
abbrev pub same_key : ProtocolEdge → ProtocolEdge → Bool
same_key e f =
    e.source == f.source
    && (e.target == f.target
        && edge_type_value e.relationship_type == edge_type_value f.relationship_type)

unfoldable pub keep_best_edge : List ProtocolEdge → ProtocolEdge → List ProtocolEdge
keep_best_edge [] e = e ∷ []
keep_best_edge (f ∷ best) e =
    if same_key f e
    then (if ltb f.confidence e.confidence then e else f) ∷ best
    else f ∷ keep_best_edge best e

unfoldable pub best_edges : List ProtocolEdge → List ProtocolEdge → List ProtocolEdge
unfolding keep_best_edge
best_edges [] best = best
best_edges (e ∷ es) best = best_edges es (keep_best_edge best e)

abbrev pub edge_le : ProtocolEdge → ProtocolEdge → Bool
edge_le e f =
    let s = edge_type_value e.relationship_type in
    let t = edge_type_value f.relationship_type in
    if s == t then pair_le (e.source, e.target) (f.source, f.target) else text_le s t

unfoldable pub dedupe_edges : List ProtocolEdge → List ProtocolEdge
unfolding best_edges
dedupe_edges edges = sort_by edge_le (best_edges edges [])

-- The edges before duplicates are dropped.
unfoldable pub all_edges : ProtocolDiscoveryResult → List ProtocolEdge
unfolding from_relationship infer_admin_to_proxy infer_oracle_to_protocol infer_depends_on
all_edges d =
    let known = contract_addresses d.contracts in
    filter (λ e. mem e.source known && mem e.target known) (map from_relationship d.relationships)
    ++ (infer_admin_to_proxy d ++ (infer_oracle_to_protocol d ++ infer_depends_on d known))

unfoldable pub build_edges : ProtocolDiscoveryResult → List ProtocolEdge
unfolding all_edges dedupe_edges
build_edges d = dedupe_edges (all_edges d)
