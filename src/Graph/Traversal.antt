-- ===== src/Graph/Traversal.antt =====
-- `ProtocolGraphTraversal` of protocol_graph/traversal.py. A loop runs on fuel.
pub mod Reach
pub mod Bfs
pub mod Dfs
pub mod Walks
pub mod Collect
pub mod Chains
pub mod Visits
pub mod Cycles
pub mod Paths
pub mod Levels
pub mod Shortest
use chain_sentinel.Base.{
  ℕ, zero, suc, ◌+◌, String, true, false, not, Option, none, some, List, [], ◌∷◌, ◌++◌, ◌==◌,
  if◌then◌else◌, length, filter, lower, sort_by, sorted, mem, add, texts_le, filter,
}
use chain_sentinel.Graph.Models.{ProtocolGraph, AdjacencyMap, addresses}
use chain_sentinel.Graph.Build.{entry}
use chain_sentinel.Scheduler.Incoming.{build_incoming}

-- `self._outgoing.get(address.lower(), ())`
abbrev pub neighbors : AdjacencyMap → String → List String
neighbors d address = entry d (lower address)

-- All targets of the map: what a walk can meet behind its start.
abbrev pub all_targets : AdjacencyMap → List String
all_targets [] = []
all_targets ((source, targets) ∷ d) = targets ++ all_targets d

-- The inner loop of `bfs`: the set of seen addresses, and the queue.
unfoldable pub enqueue : List String → List String → List String → List String × List String
enqueue [] seen queue = (seen, queue)
enqueue (n ∷ ns) seen queue =
    if mem n seen then enqueue ns seen queue else enqueue ns (add n seen) (queue ++ n ∷ [])

unfoldable pub bfs_loop : AdjacencyMap → ℕ → List String → List String → List String → List String
unfolding enqueue
bfs_loop d zero visited seen queue = visited
bfs_loop d (suc fuel) visited seen [] = visited
bfs_loop d (suc fuel) visited seen (current ∷ queue) =
    let (seen', queue') = enqueue (neighbors d current) seen queue in
    bfs_loop d fuel (visited ++ current ∷ []) seen' queue'

-- `start or self.root` is the argument. Each round takes an address that was queued once.
unfoldable pub bfs : ProtocolGraph → String → List String
unfolding bfs_loop
bfs g start =
    let origin = lower start in
    if mem origin (addresses g.nodes)
    then bfs_loop g.adjacency_map (suc (length (all_targets g.adjacency_map))) [] (origin ∷ [])
        (origin ∷ [])
    else []

-- `_walk` of `dfs`, whose `seen` and `visited` are the state.
pub record Walk : Type 0 where
  pub seen : List String
  pub visited : List String

-- `for neighbor in neighbors: visit(neighbor)`
abbrev pub each {ℓ} : {S : Type ℓ} → (String → S → S) → List String → S → S
each visit [] s = s
each visit (n ∷ ns) s = each visit ns (visit n s)

unfoldable pub walk : AdjacencyMap → ℕ → String → Walk → Walk
walk d zero n w = w
walk d (suc fuel) n w = elim (mem n w.seen) [
  | true ↦ w
  | false ↦
      each (walk d fuel) (neighbors d n)
        (record { seen = add n w.seen; visited = w.visited ++ n ∷ [] })
]

-- A walk is as deep as there are addresses that it has not seen.
unfoldable pub dfs : ProtocolGraph → String → List String
unfolding walk
dfs g start =
    let origin = lower start in
    if mem origin (addresses g.nodes)
    then (walk g.adjacency_map (suc (length (all_targets g.adjacency_map))) origin
        (record { seen = []; visited = [] })).visited
    else []

-- The loop of `descendants` and `ancestors`. The top of the stack is the head of the list, so
-- `extend` puts the items in reverse.
abbrev pub extend : List String → List String → List String
extend [] stack = stack
extend (n ∷ ns) stack = extend ns (n ∷ stack)

unfoldable pub collect :
    (String → List String) → ℕ → List String → List String → List String → List String
collect next zero collected seen stack = collected
collect next (suc fuel) collected seen [] = collected
collect next (suc fuel) collected seen (current ∷ stack) = elim (mem current seen) [
  | true ↦ collect next fuel collected seen stack
  | false ↦
      collect next fuel (collected ++ current ∷ []) (add current seen) (extend (next current) stack)
]

-- Every round takes an item off the stack, and each target puts at most all targets there, once.
abbrev pub budget : ℕ → ℕ → ℕ
budget size zero = 0
budget size (suc n) = size + budget size n

-- `next` is the lookup of an address: `neighbors`, or `incoming.get(address, ())`.
abbrev pub collect_from : (String → List String) → List String → String → List String
collect_from next targets address =
    let stack = extend (next address) [] in
    sorted (collect next (length stack + budget (length targets) (length targets)) [] [] stack)

unfoldable pub descendants : ProtocolGraph → String → List String
unfolding collect
descendants g address =
    collect_from (neighbors g.adjacency_map) (all_targets g.adjacency_map) (lower address)

unfoldable pub ancestors : ProtocolGraph → String → List String
unfolding collect build_incoming
ancestors g address =
    collect_from (entry (build_incoming g)) (all_targets (build_incoming g)) (lower address)

unfoldable pub disconnected_from_root : ProtocolGraph → List String
unfolding bfs
disconnected_from_root g =
    let reachable = bfs g g.root_node in filter (λ a. not (mem a reachable)) (addresses g.nodes)

-- The state of `find_cycles`.
pub record Search : Type 0 where
  pub visited : List String
  pub stack : List String
  pub path : List String
  pub cycles : List (List String)

-- `path[path.index(n):]`
abbrev pub from_first : String → List String → List String
from_first n [] = []
from_first n (x ∷ xs) = if x == n then x ∷ xs else from_first n xs

-- `path.pop()`, without the item
abbrev pub drop_last : List String → List String
drop_last [] = []
drop_last (x ∷ []) = []
drop_last (x ∷ y ∷ xs) = x ∷ drop_last (y ∷ xs)

abbrev pub enter : String → Search → Search
enter n s = record s { visited = add n s.visited; stack = add n s.stack; path = s.path ++ n ∷ [] }

abbrev pub leave : String → Search → Search
leave n s = record s { stack = filter (λ x. not (x == n)) s.stack; path = drop_last s.path }

-- One neighbour in the loop of `_visit`.
unfoldable pub visit_neighbor : (String → Search → Search) → String → Search → Search
visit_neighbor visit n s = elim (mem n s.visited) [
  | false ↦ visit n s
  | true ↦
      if mem n s.stack
      then record s { cycles = s.cycles ++ (from_first n s.path ++ n ∷ []) ∷ [] }
      else s
]

unfoldable pub visit : AdjacencyMap → ℕ → String → Search → Search
unfolding visit_neighbor
visit d zero n s = s
visit d (suc fuel) n s = leave n (each (visit_neighbor (visit d fuel)) (neighbors d n) (enter n s))

unfoldable pub visit_root : AdjacencyMap → ℕ → String → Search → Search
unfolding visit
visit_root d fuel n s = elim (mem n s.visited) [ true ↦ s | false ↦ visit d fuel n s ]

unfoldable pub find_cycles : ProtocolGraph → List (List String)
unfolding visit_root
find_cycles g =
    let fuel = suc (length (all_targets g.adjacency_map)) in
    sort_by texts_le
      (each (visit_root g.adjacency_map fuel) (sorted (addresses g.nodes))
        (record { visited = []; stack = []; path = []; cycles = [] })).cycles

-- A round of `shortest_path`: it ends with a path, or goes on.
pub data PathStep : Type 0 where
  found : (path : List String) → PathStep
  searching : (seen : List String) (queue : List (String × List String)) → PathStep

unfoldable pub path_neighbors :
    String → List String → List String → List String → List (String × List String) → PathStep
path_neighbors end path [] seen queue = searching seen queue
path_neighbors end path (n ∷ ns) seen queue = elim (mem n seen) [
  | true ↦ path_neighbors end path ns seen queue
  | false ↦ elim (n == end) [
    | true ↦ found (path ++ n ∷ [])
    | false ↦ path_neighbors end path ns (add n seen) (queue ++ (n, path ++ n ∷ []) ∷ [])
  ]
]

unfoldable pub path_loop :
    AdjacencyMap → String → ℕ → List String → List (String × List String) → Option (List String)
unfolding path_neighbors
path_loop d end zero seen queue = none
path_loop d end (suc fuel) seen [] = none
path_loop d end (suc fuel) seen ((current, path) ∷ queue) =
    elim (path_neighbors end path (neighbors d current) seen queue) [
      | found p ↦ some p
      | searching seen' queue' ↦ path_loop d end fuel seen' queue'
    ]

unfoldable pub shortest_path : ProtocolGraph → String → String → Option (List String)
unfolding path_loop
shortest_path g source target =
    let start = lower source in
    let end = lower target in
    let fuel = suc (length (all_targets g.adjacency_map)) in
    if start == end
    then some (start ∷ [])
    else path_loop g.adjacency_map end fuel (start ∷ []) ((start, start ∷ []) ∷ [])
