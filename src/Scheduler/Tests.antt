-- ===== src/Scheduler/Tests.antt =====
-- A graph of three nodes: `a` depends on `b`, which always fails; `c` stands alone.
use chain_sentinel.Base.{
  ℕ, zero, suc, String, ◌≡◌, refl, true, false, some, List, [], ◌∷◌, arith, ◌==◌, eq_iff,
  if◌then◌else◌, sort_by, mem, add, get, put, ok, err,
}
use chain_sentinel.Graph.{
  ProtocolGraph, ProtocolNode, ProtocolEdge, ProtocolRole, GraphEdgeType, build_adjacency_map,
}
use chain_sentinel.Scheduler.Models.{ContractAnalysis}
use chain_sentinel.Scheduler.Retry.{
  Outcome, returned, raised, RetryPolicy, retry_policy, success, execute_with_retry, value_error,
}
use chain_sentinel.Scheduler.Retry.Laws.{Explains, Slept, execute_with_retry_lem}
use chain_sentinel.Scheduler.Worker.{Env}
use chain_sentinel.Scheduler.Incoming.{dependencies, has_edge, build_incoming, mem-dependencies}
use chain_sentinel.Scheduler.Run.{RunState, run_loop}
use chain_sentinel.Scheduler.Run.Start.{HasSources}
use chain_sentinel.Scheduler.Aggregate.{ProtocolScanResult, run}
use chain_sentinel.Scheduler.Outcome.{Verdict, RunFacts, run_loop-Verdict, run_lem}

abbrev node : String → ProtocolNode
node a = record { address = a; role = ProtocolRole.unknown; protocol_name = "p"; metadata = [] }

abbrev nodes : List ProtocolNode
nodes = node "a" ∷ node "b" ∷ node "c" ∷ []

abbrev edges : List ProtocolEdge
edges =
    record {
      source = "b";
      target = "a";
      relationship_type = GraphEdgeType.depends_on;
      confidence = 100;
    }
    ∷ []

abbrev graph : ProtocolGraph
graph = record {
  nodes = nodes;
  edges = edges;
  root_node = "a";
  adjacency_map = ("a", []) ∷ ("b", "a" ∷ []) ∷ ("c", []) ∷ [];
}

graph_runs : build_adjacency_map nodes edges ≡ graph.adjacency_map
unfolding build_adjacency_map sort_by put get add
graph_runs = refl

abbrev analysis : ContractAnalysis
analysis = record {
  risk_score = 1000;
  risk_level = "LOW";
  risk_reasons = [];
  is_contract = true;
  is_upgradeable = false;
}

-- Fails twice, then returns.
abbrev flaky : ℕ → Outcome ContractAnalysis
flaky zero = raised "timeout"
flaky (suc zero) = raised "timeout"
flaky (suc (suc n)) = returned analysis

abbrev env : Env
env = record {
  analyze_node = λ a n. if a == "b" then raised "no code" else flaky n;
  started_at = λ a. 1;
  completed_at = λ a. 2;
  duration_ms = λ a. 3;
}

abbrev policy : RetryPolicy
policy = record { max_attempts = 3; delay_seconds = 1 }

graph-HasSources : HasSources graph
unfolding has_edge mem get
graph-HasSources s t h = ground (arith, eq_iff "b" s, eq_iff s "b", eq_iff "a" s, eq_iff "c" s)

flaky_runs :
    execute_with_retry flaky policy ≡ record { result = success analysis 2; calls = 3; sleeps = 2 }
unfolding execute_with_retry
flaky_runs = refl

retry_policy_runs : retry_policy 0 5 ≡ err value_error
unfolding retry_policy
retry_policy_runs = refl

execute_with_retry_example :
    Explains flaky 3
      (execute_with_retry flaky policy).calls
      (execute_with_retry flaky policy).result
    × Slept policy (execute_with_retry flaky policy).calls (execute_with_retry flaky policy).sleeps
execute_with_retry_example = execute_with_retry_lem flaky policy (omega arith)

mem-dependencies_example :
    mem "b" (dependencies (build_incoming graph) "a") ≡ has_edge graph.adjacency_map "b" "a"
mem-dependencies_example = mem-dependencies graph "b" "a"

run_loop-Verdict_example :
    (st : RunState) × (run_loop env policy graph ≡ ok st)
    × ((a : String) (r : _)
        → get st.node_results a ≡ some r
        → Verdict graph st.node_results a r.status)
run_loop-Verdict_example = run_loop-Verdict env policy graph (omega arith) graph-HasSources

run_example :
    (st : RunState) × (res : ProtocolScanResult) × (run_loop env policy graph ≡ ok st)
    × (run env policy graph ≡ ok res)
    × RunFacts graph st.node_results res
run_example = run_lem env policy graph (omega arith) graph-HasSources
