-- ===== src/Graph/Validator.antt =====
-- `ProtocolGraphValidator` of protocol_graph/validator.py.
pub mod WellFormed
pub mod Reported
use chain_sentinel.Base.{
  String, Bool, true, false, ◌&&◌, ◌||◌, not, Option, none, some, List, [], ◌∷◌, ◌++◌, ◌==◌, leb,
  eqb, if◌then◌else◌, length, filter, any, sorted, mem, add, ◌⧺◌, decimal, filter,
}
use chain_sentinel.Graph.Models.{
  ProtocolEdge, ProtocolGraph, GraphValidationIssue, GraphValidationReport, addresses,
}
use chain_sentinel.Graph.Traversal.{disconnected_from_root, find_cycles}

-- `{x for x in xs}`
unfoldable pub set_of : List String → List String → List String
set_of [] s = s
set_of (x ∷ xs) s = set_of xs (add x s)

abbrev issue : String → String → Option String → GraphValidationIssue
issue c m a = record { code = c; message = m; address = a }

-- `if condition: issues.append(issue)`
abbrev pub issue_if : Bool → GraphValidationIssue → List GraphValidationIssue
issue_if condition i = if condition then i ∷ [] else []

unfoldable pub edge_issues : List String → ProtocolEdge → List GraphValidationIssue
edge_issues known e =
    issue_if (not (mem e.source known))
      (issue "invalid_edge" ("Edge source not found in nodes: " ⧺ e.source) (some e.source))
    ++ (issue_if (not (mem e.target known))
          (issue "invalid_edge" ("Edge target not found in nodes: " ⧺ e.target) (some e.target))
        ++ issue_if (e.source == e.target)
            (issue "self_loop" ("Self loop detected on " ⧺ e.source) (some e.source)))

unfoldable pub all_edge_issues : List String → List ProtocolEdge → List GraphValidationIssue
unfolding edge_issues
all_edge_issues known [] = []
all_edge_issues known (e ∷ es) = edge_issues known e ++ all_edge_issues known es

-- `touched`: the ends of the edges
unfoldable pub touched : List ProtocolEdge → List String → List String
touched [] s = s
touched (e ∷ es) s = touched es (add e.target (add e.source s))

unfoldable pub find_orphan_nodes : ProtocolGraph → List String
unfolding touched
find_orphan_nodes g =
    if leb (length g.nodes) 1
    then []
    else filter (λ a. not (mem a (touched g.edges [])) && not (a == g.root_node))
        (addresses g.nodes)

-- The issues up to the loop over the edges.
unfoldable pub integrity_issues : ProtocolGraph → List GraphValidationIssue
unfolding set_of all_edge_issues
integrity_issues g =
    let known = set_of (addresses g.nodes) [] in
    issue_if (not (mem g.root_node known))
      (issue "missing_root" "Root node is not present in graph nodes" (some g.root_node))
    ++ (issue_if (not (eqb (length known) (length g.nodes)))
          (issue "duplicate_nodes" "Graph contains duplicate node addresses" none)
        ++ all_edge_issues known g.edges)

abbrev pub is_nonempty {ℓ} : {A : Type ℓ} → List A → Bool
is_nonempty [] = false
is_nonempty (x ∷ xs) = true

-- The issues of what the traversal found, which do not make a graph invalid.
unfoldable pub traversal_issues :
    List String → List (List String) → List String → List GraphValidationIssue
traversal_issues disconnected cycles orphan_nodes =
    issue_if (is_nonempty disconnected) (
      issue "disconnected_nodes" (decimal (length disconnected) ⧺ " node(s) disconnected from root")
        none)
    ++ (issue_if (is_nonempty cycles)
          (issue "cycles_detected" (decimal (length cycles) ⧺ " cycle(s) detected in graph") none)
        ++ issue_if (is_nonempty orphan_nodes) (
            issue "orphan_nodes" (decimal (length orphan_nodes) ⧺ " orphan node(s) with no edges")
              none))

abbrev pub is_fatal : GraphValidationIssue → Bool
is_fatal i =
    i.code == "missing_root"
    || (i.code == "duplicate_nodes" || (i.code == "invalid_edge" || i.code == "self_loop"))

unfoldable pub validate : ProtocolGraph → GraphValidationReport
unfolding integrity_issues traversal_issues disconnected_from_root find_cycles find_orphan_nodes
validate g =
    let disconnected = sorted (disconnected_from_root g) in
    let cycles = find_cycles g in
    let orphan_nodes = sorted (find_orphan_nodes g) in
    let issues = integrity_issues g ++ traversal_issues disconnected cycles orphan_nodes in
    record {
      is_valid = not (any is_fatal issues);
      issues = issues;
      disconnected_nodes = disconnected;
      orphan_nodes = orphan_nodes;
      cycles = cycles;
    }
