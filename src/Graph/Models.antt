-- ===== src/Graph/Models.antt =====
-- protocol_graph/models.py, and the discovery result of protocol_scan/models.py that it is built from.
use chain_sentinel.Base.{ℕ, String, Bool, Option, List, map, Dict}
use chain_sentinel.Evidence.Models.{Value}

pub data ProtocolRole : Type 0 where
  root proxy implementation governor timelock router factory pool : ProtocolRole
  vault strategy token treasury oracle bridge messenger unknown : ProtocolRole

pub data GraphEdgeType : Type 0 where
  proxy_to_implementation admin_to_proxy governor_to_timelock router_to_factory : GraphEdgeType
  factory_to_pool vault_to_strategy token_to_treasury bridge_to_messenger : GraphEdgeType
  oracle_to_protocol depends_on : GraphEdgeType

-- A value of a metadata dictionary is a text, a flag or an integer.
pub record ProtocolNode : Type 0 where
  pub address : String
  pub role : ProtocolRole
  pub protocol_name : String
  pub metadata : Dict Value

pub record ProtocolEdge : Type 0 where
  pub source : String
  pub target : String
  pub relationship_type : GraphEdgeType
  pub confidence : ℕ

pub data ProtocolRelationshipType : Type 0 where
  proxy_to_implementation governor_to_timelock router_to_factory : ProtocolRelationshipType
  factory_to_pool vault_to_strategy token_to_treasury : ProtocolRelationshipType
  bridge_to_messenger : ProtocolRelationshipType

pub record ProtocolContract : Type 0 where
  pub address : String
  pub role : ProtocolRole
  pub confidence : ℕ
  pub detection_source : String
  pub metadata : Dict Value

pub record ProtocolRelationship : Type 0 where
  pub source_address : String
  pub target_address : String
  pub relationship_type : ProtocolRelationshipType
  pub confidence : ℕ
  pub detection_source : String

pub record ProtocolDiscoveryResult : Type 0 where
  pub root_address : String
  pub chain_id : ℕ
  pub protocol_name : String
  pub protocol_family : String
  pub contracts : List ProtocolContract
  pub relationships : List ProtocolRelationship
  pub confidence : ℕ
  pub detection_sources : List String

pub record GraphValidationIssue : Type 0 where
  pub code : String
  pub message : String
  pub address : Option String

pub record GraphValidationReport : Type 0 where
  pub is_valid : Bool
  pub issues : List GraphValidationIssue
  pub disconnected_nodes : List String
  pub orphan_nodes : List String
  pub cycles : List (List String)

-- The texts of the enumerations, `role.value` and `relationship_type.value`.
abbrev pub role_value : ProtocolRole → String
role_value root = "root"
role_value proxy = "proxy"
role_value implementation = "implementation"
role_value governor = "governor"
role_value timelock = "timelock"
role_value router = "router"
role_value factory = "factory"
role_value pool = "pool"
role_value vault = "vault"
role_value strategy = "strategy"
role_value token = "token"
role_value treasury = "treasury"
role_value oracle = "oracle"
role_value bridge = "bridge"
role_value messenger = "messenger"
role_value unknown = "unknown"

abbrev pub edge_type_value : GraphEdgeType → String
edge_type_value GraphEdgeType.proxy_to_implementation = "PROXY_TO_IMPLEMENTATION"
edge_type_value GraphEdgeType.admin_to_proxy = "ADMIN_TO_PROXY"
edge_type_value GraphEdgeType.governor_to_timelock = "GOVERNOR_TO_TIMELOCK"
edge_type_value GraphEdgeType.router_to_factory = "ROUTER_TO_FACTORY"
edge_type_value GraphEdgeType.factory_to_pool = "FACTORY_TO_POOL"
edge_type_value GraphEdgeType.vault_to_strategy = "VAULT_TO_STRATEGY"
edge_type_value GraphEdgeType.token_to_treasury = "TOKEN_TO_TREASURY"
edge_type_value GraphEdgeType.bridge_to_messenger = "BRIDGE_TO_MESSENGER"
edge_type_value GraphEdgeType.oracle_to_protocol = "ORACLE_TO_PROTOCOL"
edge_type_value GraphEdgeType.depends_on = "DEPENDS_ON"

abbrev pub AdjacencyMap : Type 0
AdjacencyMap = Dict (List String)

pub record ProtocolGraph : Type 0 where
  pub nodes : List ProtocolNode
  pub edges : List ProtocolEdge
  pub root_node : String
  pub adjacency_map : AdjacencyMap

-- `node.address for node in graph.nodes`
abbrev pub addresses : List ProtocolNode → List String
addresses nodes = map (λ n. n.address) nodes
