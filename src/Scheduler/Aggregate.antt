-- ===== src/Scheduler/Aggregate.antt =====
-- protocol_scheduler/aggregation.py, and the result that `run` returns. A risk score is in
-- hundredths, and the mean of the durations is kept as their sum and number.
use chain_sentinel.Base.{
  ℕ, String, none, some, List, [], ◌∷◌, ◌++◌, map, ltb, if◌then◌else◌, length, filter, count_if,
  text_le, sort_by, sorted, add, Dict, get, put, values, Result, ok, ◌>>=◌, map_result, filter,
  map_result, ltb,
}
use chain_sentinel.Graph.{ProtocolGraph, ProtocolNode, ProtocolRole}
use chain_sentinel.Scheduler.Models.{
  is_completed, is_failed, is_skipped, ContractAnalysis, NodeScanResult, Results, ExecutionBatch,
  Error,
}
use chain_sentinel.Scheduler.Retry.{RetryPolicy}
use chain_sentinel.Scheduler.Worker.{Env, Metrics}
use chain_sentinel.Scheduler.Run.{RunState, lookup, run_loop}

pub record NodeEvidence : Type 0 where
  pub role : ProtocolRole
  pub protocol_name : String
  pub analysis : ContractAnalysis
  pub duration_ms : ℕ
  pub retry_count : ℕ

pub record ProtocolEvidence : Type 0 where
  pub protocol_root : String
  pub node_count : ℕ
  pub completed_count : ℕ
  pub failed_count : ℕ
  pub skipped_count : ℕ
  pub highest_risk_score : ℕ
  pub risk_levels : List String
  pub nodes : Dict NodeEvidence

-- The locals of the loop over the nodes.
pub record Tally : Type 0 where
  pub nodes_evidence : Dict NodeEvidence
  pub highest : ℕ
  pub levels : List String

tally_analysis : ProtocolNode → NodeScanResult → ContractAnalysis → Tally → Tally
tally_analysis node r a t = record {
  nodes_evidence = put t.nodes_evidence node.address (record {
    role = node.role;
    protocol_name = node.protocol_name;
    analysis = a;
    duration_ms = r.duration_ms;
    retry_count = r.retry_count;
  });
  highest = if ltb t.highest a.risk_score then a.risk_score else t.highest;
  levels = t.levels ++ a.risk_level ∷ [];
}

tally_result : ProtocolNode → NodeScanResult → Tally → Tally
unfolding tally_analysis
tally_result node r t =
    if is_completed r.status
    then elim r.analysis [ none ↦ t | some a ↦ tally_analysis node r a t ]
    else t

tally_node : Results → ProtocolNode → Tally → Tally
unfolding tally_result
tally_node d node t = elim (get d node.address) [ none ↦ t | some r ↦ tally_result node r t ]

unfoldable pub tally_nodes : Results → List ProtocolNode → Tally → Tally
unfolding tally_node
tally_nodes d [] t = t
tally_nodes d (n ∷ ns) t = tally_nodes d ns (tally_node d n t)

-- `set(xs)`
to_set : List String → List String
to_set [] = []
to_set (x ∷ xs) = add x (to_set xs)

unfoldable pub aggregate_protocol_evidence : ProtocolGraph → Results → ProtocolEvidence
unfolding tally_nodes to_set
aggregate_protocol_evidence g d =
    let t = tally_nodes d g.nodes (record { nodes_evidence = []; highest = 0; levels = [] }) in
    record {
      protocol_root = g.root_node;
      node_count = length g.nodes;
      completed_count = length t.nodes_evidence;
      failed_count = count_if (λ r. is_failed r.status) (values d);
      skipped_count = count_if (λ r. is_skipped r.status) (values d);
      highest_risk_score = t.highest;
      risk_levels = sorted (to_set t.levels);
      nodes = t.nodes_evidence;
    }

pub record ProtocolScanResult : Type 0 where
  pub execution_order : List String
  pub completed_nodes : List String
  pub failed_nodes : List String
  pub aggregated_evidence : ProtocolEvidence
  pub metrics : Metrics
  pub node_results : List NodeScanResult
  pub execution_batches : List ExecutionBatch

-- `[a for a in addresses if node_results[a].status == COMPLETED]`
unfoldable pub completed_of : Results → List String → Result Error (List String)
completed_of d [] = ok []
completed_of d (a ∷ order) = do
  r ← lookup d a
  rest ← completed_of d order
  ok (if is_completed r.status then a ∷ rest else rest)

-- `node_results[node.address] for node in sorted(graph.nodes, key=address)`
unfoldable pub ordered_results : Results → List ProtocolNode → Result Error (List NodeScanResult)
ordered_results d nodes =
    map_result (λ n. lookup d n.address) (sort_by (λ a b. text_le a.address b.address) nodes)

-- The result of a run, from its last state.
unfoldable pub summary :
    ProtocolGraph → RunState → List NodeScanResult → List String → ProtocolScanResult
unfolding aggregate_protocol_evidence
summary g st results completed = record {
  execution_order = st.execution_order;
  completed_nodes = completed;
  failed_nodes = map (λ r. r.address) (filter (λ r. is_failed r.status) results);
  aggregated_evidence = aggregate_protocol_evidence g st.node_results;
  metrics = st.metrics;
  node_results = results;
  execution_batches = st.execution_batches;
}

-- `ProtocolScanScheduler.run`, without the two readings of the wall clock.
unfoldable pub run : Env → RetryPolicy → ProtocolGraph → Result Error ProtocolScanResult
unfolding run_loop completed_of ordered_results summary
run env policy g = do
  st ← run_loop env policy g
  results ← ordered_results st.node_results g.nodes
  completed ← completed_of st.node_results st.execution_order
  ok (summary g st results completed)
