-- ===== src/Graph/Build.antt =====
-- `_build_adjacency_map` of protocol_graph/graph_builder.py, and the sets it shares with the
-- reverse maps of the traversal and of the scheduler.
use chain_sentinel.Base.{
  String, none, some, List, [], ◌∷◌, map, text_le, sort_by, sorted, add, get, put,
}
use chain_sentinel.Graph.Models.{ProtocolNode, ProtocolEdge, AdjacencyMap}

-- `{node.address: set() for node in nodes}`
unfoldable pub empty_sets : List ProtocolNode → AdjacencyMap → AdjacencyMap
empty_sets [] d = d
empty_sets (n ∷ ns) d = empty_sets ns (put d n.address [])

-- `d.setdefault(k, set())`
abbrev pub entry : AdjacencyMap → String → List String
entry d k = elim (get d k) [ none ↦ [] | some s ↦ s ]

-- `d.setdefault(k, set()).add(x)`
unfoldable pub add_target : AdjacencyMap → String → String → AdjacencyMap
add_target d k x = put d k (add x (entry d k))

unfoldable pub add_edges : List ProtocolEdge → AdjacencyMap → AdjacencyMap
unfolding add_target
add_edges [] d = d
add_edges (e ∷ es) d =
    let d' = add_target d e.source e.target in add_edges es (put d' e.target (entry d' e.target))

unfoldable pub build_adjacency_map : List ProtocolNode → List ProtocolEdge → AdjacencyMap
unfolding add_edges empty_sets
build_adjacency_map nodes edges =
    map (λ e. (e.0, sorted e.1))
      (sort_by (λ a b. text_le a.0 b.0) (add_edges edges (empty_sets nodes [])))
