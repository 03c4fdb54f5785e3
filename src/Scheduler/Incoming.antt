-- ===== src/Scheduler/Incoming.antt =====
-- `build_dependency_maps` of protocol_scheduler/dependency_resolver.py: the dependencies of each
-- node, as a map from a node to the sources of its incoming edges.
use chain_sentinel.Base.{
  String, ◌≡◌, refl, Bool, ◌&&◌, ◌||◌, List, [], ◌∷◌, map, arith, ◌==◌, eq_iff, if◌then◌else◌, any,
  sort_by, sorted, mem, add, mem-add, mem-sorted, get, put, get-put,
}
use chain_sentinel.Graph.{AdjacencyMap, ProtocolGraph, ProtocolNode, empty_sets, add_target, entry}

-- `for target in targets: incoming.setdefault(target, set()).add(source)`
add_sources : String → List String → AdjacencyMap → AdjacencyMap
add_sources source [] incoming = incoming
add_sources source (t ∷ ts) incoming = add_sources source ts (add_target incoming t source)

add_all_sources : AdjacencyMap → AdjacencyMap → AdjacencyMap
unfolding add_sources
add_all_sources [] incoming = incoming
add_all_sources ((source, targets) ∷ outgoing) incoming =
    add_all_sources outgoing (add_sources source targets incoming)

-- Each set of parents becomes a sorted tuple.
sort_values : AdjacencyMap → AdjacencyMap
sort_values d = map (λ e. (e.0, sorted e.1)) d

-- `_build_reverse_adjacency` of the traversal is the same code.
unfoldable pub build_incoming : ProtocolGraph → AdjacencyMap
unfolding add_all_sources sort_values
build_incoming g = sort_values (add_all_sources g.adjacency_map (empty_sets g.nodes []))

unfoldable pub build_dependency_maps : ProtocolGraph → AdjacencyMap × AdjacencyMap
build_dependency_maps g = (build_incoming g, g.adjacency_map)

-- `incoming.get(address, ())`
abbrev pub dependencies : AdjacencyMap → String → List String
dependencies = entry

-- Whether the map has an edge from `source` to `target`.
unfoldable pub has_edge : AdjacencyMap → String → String → Bool
has_edge d source target = any (λ e. e.0 == source && mem target e.1) d

pub entry-put :
    (d : AdjacencyMap) (k b : String) (s : List String)
    → entry (put d k s) b ≡ (if k == b then s else entry d b)
entry-put d k b s = ground (arith, get-put d k b s)

pub entry-add_target :
    (d : AdjacencyMap) (k x a b : String)
    → mem a (entry (add_target d k x) b) ≡ (mem a (entry d b) || (k == b && a == x))
unfolding add_target
entry-add_target d k x a b =
    ground (arith, entry-put d k b (add x (entry d k)), mem-add a x (entry d k), eq_iff k b)

mem-add_sources :
    (s : String) (ts : List String) (d : AdjacencyMap) (a b : String)
    → mem a (entry (add_sources s ts d) b) ≡ (mem a (entry d b) || (s == a && mem b ts))
unfolding add_sources mem
mem-add_sources s [] d a b = ground arith
mem-add_sources s (t ∷ ts) d a b = ground (
  arith,
  mem-add_sources s ts (add_target d t s) a b,
  entry-add_target d t s a b,
  eq_iff s a,
  eq_iff a s,
  eq_iff b t,
  eq_iff t b,
)

mem-add_all_sources :
    (outgoing d : AdjacencyMap) (a b : String)
    → mem a (entry (add_all_sources outgoing d) b) ≡ (mem a (entry d b) || has_edge outgoing a b)
unfolding add_all_sources has_edge
mem-add_all_sources [] d a b = ground arith
mem-add_all_sources ((s, ts) ∷ outgoing) d a b =
    ground
      (arith, mem-add_all_sources outgoing (add_sources s ts d) a b, mem-add_sources s ts d a b)

entry-sort_values : (d : AdjacencyMap) (b : String) → entry (sort_values d) b ≡ sorted (entry d b)
unfolding sort_values get sort_by
entry-sort_values [] b = refl
entry-sort_values ((k, s) ∷ d) b = ground (arith, entry-sort_values d b)

pub entry-empty_sets :
    (nodes : List ProtocolNode) (d : AdjacencyMap) (b : String)
    → entry d b ≡ []
    → entry (empty_sets nodes d) b ≡ []
unfolding empty_sets
entry-empty_sets [] d b h = h
entry-empty_sets (n ∷ ns) d b h =
    entry-empty_sets ns (put d n.address []) b (ground (arith, entry-put d n.address b []))

-- The dependencies of a node are exactly the sources of the edges into it.
pub mem-dependencies :
    (g : ProtocolGraph) (a b : String)
    → mem a (dependencies (build_incoming g) b) ≡ has_edge g.adjacency_map a b
unfolding build_incoming mem get
mem-dependencies g a b =
    rw (entry-sort_values, mem-sorted, mem-add_all_sources, entry-empty_sets g.nodes [] b refl)
