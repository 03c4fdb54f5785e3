-- ===== src/Graph/Builder.antt =====
-- `ProtocolGraphBuilder` of protocol_graph/graph_builder.py: a graph that passes the validator, or
-- the error with the codes of its issues.
pub mod Nodes
pub mod Edges
pub mod Adjacency
pub mod Exact
use chain_sentinel.Base.{
  String, Bool, ◌&&◌, not, List, [], map, if◌then◌else◌, lower, sorted, Result, ok, err,
}
use chain_sentinel.Graph.Models.{
  ProtocolDiscoveryResult, ProtocolGraph, GraphValidationIssue, GraphValidationReport,
}
use chain_sentinel.Graph.Build.{build_adjacency_map}
use chain_sentinel.Graph.Nodes.{build_nodes, mark_root_node}
use chain_sentinel.Graph.Edges.{build_edges}
use chain_sentinel.Graph.Validator.{validate, set_of}

-- `ValueError`, with the codes of its message
pub data Error : Type 0 where
  invalid_graph : List String → Error

-- The graph that both methods of the builder make, before it is validated.
unfoldable pub make_graph : ProtocolDiscoveryResult → ProtocolGraph
unfolding build_nodes mark_root_node build_edges build_adjacency_map
make_graph d =
    let root_address = lower d.root_address in
    let nodes = mark_root_node (build_nodes d) root_address in
    let edges = build_edges d in
    record {
      nodes = nodes;
      edges = edges;
      root_node = root_address;
      adjacency_map = build_adjacency_map nodes edges;
    }

-- `sorted({issue.code for issue in report.issues})`
abbrev pub issue_codes : List GraphValidationIssue → List String
unfolding set_of
issue_codes issues = sorted (set_of (map (λ i. i.code) issues) [])

unfoldable pub build : ProtocolDiscoveryResult → Result Error ProtocolGraph
unfolding make_graph validate
build d =
    let graph = make_graph d in
    let report = validate graph in
    if not report.is_valid then err (invalid_graph (issue_codes report.issues)) else ok graph

unfoldable pub build_with_validation :
    ProtocolDiscoveryResult → Bool → Result Error (ProtocolGraph × GraphValidationReport)
unfolding make_graph validate
build_with_validation d allow_invalid =
    let graph = make_graph d in
    let report = validate graph in
    if not report.is_valid && not allow_invalid
    then err (invalid_graph (issue_codes report.issues))
    else ok (graph, report)
