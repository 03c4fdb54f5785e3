-- ===== src/Graph/Tests.antt =====
-- A discovery result with a proxy, its admin and an oracle: the admin and the oracle come before
-- the proxy, on which the admin depends back.
use chain_sentinel.Base.{
  String, ◌≡◌, refl, ◌↔◌, true, false, none, some, [], ◌∷◌, arith, All, lower, sort_by, mem, add,
  Dict, get, put, keys, ok, err, Distinct,
}
use chain_sentinel.Evidence.Models.{Value, text}
use chain_sentinel.Graph.Models.{
  ProtocolRole, ProtocolContract, ProtocolRelationshipType, ProtocolDiscoveryResult, ProtocolGraph,
  addresses,
}
use chain_sentinel.Graph.Traversal.{bfs, dfs, descendants, ancestors, find_cycles, shortest_path}
use chain_sentinel.Graph.Traversal.Shortest.{IsShortest, shortest_path-IsShortest}
use chain_sentinel.Graph.Traversal.Reach.{Reach, edges_of}
use chain_sentinel.Graph.Traversal.Bfs.{bfs-Reach}
use chain_sentinel.Graph.Traversal.Dfs.{dfs-bfs}
use chain_sentinel.Graph.Traversal.Walks.{Walks}
use chain_sentinel.Graph.Traversal.Collect.{IsLower, descendants-ancestors}
use chain_sentinel.Graph.Traversal.Chains.{IsCycle}
use chain_sentinel.Graph.Traversal.Cycles.{find_cycles-exact}
use chain_sentinel.Graph.Validator.{validate}
use chain_sentinel.Graph.Validator.Reported.{Reports, validate-Reports}
use chain_sentinel.Graph.Builder.{make_graph, build, invalid_graph, issue_codes}
use chain_sentinel.Graph.Builder.Exact.{
  IsBuildable, build-IsBuildable, IsBuilt, build-IsBuilt, build-run,
}
use chain_sentinel.Scheduler.Models.{ContractAnalysis}
use chain_sentinel.Scheduler.Retry.{returned, RetryPolicy}
use chain_sentinel.Scheduler.Worker.{Env}
use chain_sentinel.Scheduler.Run.{RunState, run_loop}
use chain_sentinel.Scheduler.Aggregate.{ProtocolScanResult, run}
use chain_sentinel.Scheduler.Outcome.{RunFacts}

abbrev contract : String → ProtocolRole → Dict Value → ProtocolContract
contract a r m = record {
  address = a;
  role = r;
  confidence = 80;
  detection_source = "scan";
  metadata = m;
}

abbrev discovery : ProtocolDiscoveryResult
discovery = record {
  root_address = "0xP";
  chain_id = 1;
  protocol_name = "p";
  protocol_family = "dex";
  contracts =
      contract "0xp" ProtocolRole.proxy (("admin_address", text "0xA") ∷ [])
      ∷ contract "0xa" ProtocolRole.unknown (("depends_on", text "0xP") ∷ [])
      ∷ contract "0xo" ProtocolRole.oracle []
      ∷ contract "0xo" ProtocolRole.oracle []
      ∷ [];
  relationships =
      record {
        source_address = "0xp";
        target_address = "0xa";
        relationship_type = ProtocolRelationshipType.proxy_to_implementation;
        confidence = 70;
        detection_source = "scan";
      }
      ∷ [];
  confidence = 80;
  detection_sources = [];
}

abbrev graph : ProtocolGraph
unfolding make_graph
graph = make_graph discovery

nodes_run : addresses graph.nodes ≡ "0xo" ∷ "0xp" ∷ "0xa" ∷ []
unfolding graph sort_by get put lower mem add
nodes_run = refl

build_runs : build discovery ≡ ok graph
unfolding build sort_by get put lower mem add
build_runs = refl

bfs_runs : bfs graph "0xO" ≡ "0xo" ∷ "0xp" ∷ "0xa" ∷ []
unfolding bfs graph sort_by get put lower mem add
bfs_runs = refl

dfs_runs : dfs graph "0xO" ≡ "0xo" ∷ "0xp" ∷ "0xa" ∷ []
unfolding dfs graph sort_by get put lower mem add
dfs_runs = refl

cycles_run : find_cycles graph ≡ ("0xa" ∷ "0xp" ∷ "0xa" ∷ []) ∷ []
unfolding find_cycles graph sort_by get put lower mem add
cycles_run = refl

known_run : mem (lower "0xO") (addresses graph.nodes) ≡ true
unfolding graph sort_by get put lower mem add
known_run = refl

bfs-Reach_example :
    Distinct (bfs graph "0xO")
    × ((b : String) → (mem b (bfs graph "0xO") ≡ true) ↔ Reach graph.adjacency_map (lower "0xO") b)
bfs-Reach_example = bfs-Reach graph "0xO" known_run

dfs-bfs_example :
    Distinct (dfs graph "0xO")
    × ((b : String) → (mem b (dfs graph "0xO") ≡ true) ↔ Reach graph.adjacency_map (lower "0xO") b)
    × ((b : String) → mem b (dfs graph "0xO") ≡ mem b (bfs graph "0xO"))
dfs-bfs_example = dfs-bfs graph "0xO" known_run

keyed_run : Distinct (keys graph.adjacency_map)
unfolding graph sort_by get put lower mem add
keyed_run = (refl, (refl, (refl, tt)))

low_run : (lower "0xo" ≡ "0xo") × (lower "0xa" ≡ "0xa")
unfolding lower
low_run = (refl, refl)

edges_low_run : IsLower graph.adjacency_map
unfolding graph sort_by get put lower mem add
edges_low_run = ((refl, (refl, tt)), ((refl, (refl, tt)), ((refl, (refl, tt)), tt)))

-- An edge to an address that is not in lower case: the edges of its lower case count as its own.
abbrev mixed : ProtocolGraph
unfolding graph
mixed = record graph {
  adjacency_map = ("0xa", "0xP" ∷ []) ∷ ("0xo", []) ∷ ("0xp", "0xo" ∷ []) ∷ [];
}

mixed_run : bfs mixed "0xa" ≡ "0xa" ∷ "0xP" ∷ "0xo" ∷ []
unfolding bfs mem mixed sort_by get put lower add
mixed_run = refl

descendants-ancestors_example :
    ((mem "0xa" (descendants graph "0xo") ≡ true)
      ↔ Walks (edges_of graph.adjacency_map) (lower "0xo") "0xa")
    × (mem "0xa" (descendants graph "0xo") ≡ mem "0xo" (ancestors graph "0xa"))
descendants-ancestors_example =
    descendants-ancestors graph "0xo" "0xa" keyed_run edges_low_run low_run.0 low_run.1

build-IsBuilt_example : IsBuilt graph
build-IsBuilt_example = build-IsBuilt discovery graph build_runs

find_cycles-exact_example :
    All (IsCycle graph.adjacency_map) (find_cycles graph)
    × ((find_cycles graph ≡ []) ↔ ((a : String) → ¬ Walks (edges_of graph.adjacency_map) a a))
find_cycles-exact_example =
    find_cycles-exact graph (build-IsBuilt discovery graph build_runs).sources

validate-Reports_example : Reports graph (validate graph)
validate-Reports_example = validate-Reports graph

build-IsBuildable_example :
    ((build discovery ≡ ok (make_graph discovery)) ↔ IsBuildable discovery)
    × (¬ IsBuildable discovery
        → build discovery
          ≡ err (invalid_graph (issue_codes (validate (make_graph discovery)).issues)))
build-IsBuildable_example = build-IsBuildable discovery

abbrev analysis : ContractAnalysis
analysis = record {
  risk_score = 1000;
  risk_level = "LOW";
  risk_reasons = [];
  is_contract = true;
  is_upgradeable = false;
}

abbrev env : Env
env = record {
  analyze_node = λ a n. returned analysis;
  started_at = λ a. 1;
  completed_at = λ a. 2;
  duration_ms = λ a. 3;
}

abbrev policy : RetryPolicy
policy = record { max_attempts = 3; delay_seconds = 1 }

build-run_example :
    (st : RunState) × (res : ProtocolScanResult) × (run_loop env policy graph ≡ ok st)
    × (run env policy graph ≡ ok res)
    × RunFacts graph st.node_results res
build-run_example = build-run env policy discovery graph (omega arith) build_runs

shortest_run : shortest_path graph "0xO" "0xa" ≡ some ("0xo" ∷ "0xp" ∷ "0xa" ∷ [])
unfolding shortest_path lower get graph sort_by mem put add
shortest_run = refl

unjoined_run : shortest_path graph "0xp" "0xo" ≡ none
unfolding shortest_path lower get graph sort_by mem put add
unjoined_run = refl

shortest_path-IsShortest_example :
    IsShortest graph.adjacency_map (lower "0xo") (lower "0xa") (shortest_path graph "0xo" "0xa")
shortest_path-IsShortest_example = shortest_path-IsShortest graph "0xo" "0xa"
