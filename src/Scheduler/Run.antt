-- ===== src/Scheduler/Run.antt =====
-- protocol_scheduler/scheduler.py: the scan of a whole graph, batch by batch.
pub mod Status
pub mod Moves
pub mod Scans
pub mod Skips
pub mod Ready
pub mod Batch
pub mod Tracking
pub mod Merging
pub mod Unresolved
pub mod Loop
pub mod Start
use chain_sentinel.Base.{
  ℕ, zero, suc, ◌+◌, String, Bool, true, false, none, some, List, [], ◌∷◌, ◌++◌, if◌then◌else◌,
  length, sorted, get, put, Result, ok, err, ◌>>=◌, ◌>>◌,
}
use chain_sentinel.Graph.{AdjacencyMap, ProtocolGraph, ProtocolNode}
use chain_sentinel.Scheduler.Models.{
  pending, is_pending, is_completed, is_failed, ExecutionBatch, NodeScanResult, Error, key_error,
  out_of_fuel, Results,
}
use chain_sentinel.Scheduler.Retry.{RetryPolicy}
use chain_sentinel.Scheduler.Worker.{
  Env, scan, skip, merge_result, run_batch, Metrics, no_metrics, record_batch, record_node,
}
use chain_sentinel.Scheduler.Incoming.{build_incoming, dependencies}

-- `node_results[k]`
abbrev pub lookup : Results → String → Result Error NodeScanResult
lookup d k = elim (get d k) [ none ↦ err (key_error k) | some r ↦ ok r ]

-- `any(node_results[d].status == FAILED for d in dependencies)`: the rest of the generator is not
-- run once an item holds.
unfoldable pub any_failed : Results → List String → Result Error Bool
any_failed d [] = ok false
any_failed d (x ∷ xs) = do
  r ← lookup d x
  let rest = any_failed d xs
  if is_failed r.status then ok true else rest

-- `all(node_results[d].status == COMPLETED for d in dependencies)`
unfoldable pub all_completed : Results → List String → Result Error Bool
all_completed d [] = ok true
all_completed d (x ∷ xs) = do
  r ← lookup d x
  let rest = all_completed d xs
  if is_completed r.status then rest else ok false

module _ (incoming : AdjacencyMap) where
  -- One round of the loop of `_ready_nodes`. On no dependency `all` holds.
  unfoldable pub is_ready : Results → String → NodeScanResult → Result Error Bool
  unfolding all_completed
  is_ready d a r =
      if is_pending r.status then all_completed d (dependencies incoming a) else ok false

  unfoldable pub ready_items : Results → Results → Result Error (List String)
  unfolding is_ready
  ready_items d [] = ok []
  ready_items d ((a, r) ∷ items) = do
    ready ← is_ready d a r
    rest ← ready_items d items
    ok (if ready then a ∷ rest else rest)

  unfoldable pub ready_nodes : Results → Result Error (List String)
  unfolding ready_items
  ready_nodes d = do ready ← ready_items d d; ok (sorted ready)

  -- `_mark_skipped_nodes`: the items are those of the dictionary when the loop starts, and the
  -- statuses of the dependencies are read as they are now.
  unfoldable pub skip_item : Env → Results → String → NodeScanResult → Result Error Results
  unfolding any_failed
  skip_item env d a r =
      if is_pending r.status
      then (do
        blocked ← any_failed d (dependencies incoming a)
        ok (if blocked then put d a (skip env a "dependency_failed") else d))
      else ok d

  unfoldable pub skip_items : Env → Results → Results → Result Error Results
  unfolding skip_item
  skip_items env [] d = ok d
  skip_items env ((a, r) ∷ items) d = do d' ← skip_item env d a r; skip_items env items d'

  abbrev pub mark_skipped_nodes : Env → Results → Result Error Results
  mark_skipped_nodes env d = skip_items env d d

-- `_mark_unresolved_nodes`
unfoldable pub unresolved_items : Env → Results → Results → Results
unresolved_items env [] d = d
unresolved_items env ((a, r) ∷ items) d =
    unresolved_items env items
      (if is_pending r.status then put d a (skip env a "unresolved_dependencies") else d)

abbrev pub mark_unresolved_nodes : Env → Results → Results
mark_unresolved_nodes env d = unresolved_items env d d

pub record RunState : Type 0 where
  pub node_results : Results
  pub execution_order : List String
  pub execution_batches : List ExecutionBatch
  pub batch_index : ℕ
  pub metrics : Metrics

-- The result of one scan of the batch goes into the state.
unfoldable pub merge_item : RunState → NodeScanResult → NodeScanResult → RunState
unfolding merge_result
merge_item st current r =
    let st' = record st { node_results = put st.node_results r.address (merge_result current r) } in
    if is_completed r.status
    then record st' {
      execution_order = st.execution_order ++ r.address ∷ [];
      metrics = record_node st.metrics r.duration_ms r.retry_count;
    }
    else st'

unfoldable pub merge_batch : List NodeScanResult → RunState → Result Error RunState
unfolding merge_item
merge_batch [] st = ok st
merge_batch (r ∷ rs) st = do
  current ← lookup st.node_results r.address
  merge_batch rs (merge_item st current r)

module _ (env : Env) (policy : RetryPolicy) (incoming : AdjacencyMap) where
  -- The rest of a round, from the nodes that are ready.
  unfoldable pub run_ready : RunState → List String → Result Error RunState
  unfolding merge_batch scan
  run_ready st ready = do
    batch_results ← run_batch (scan env policy) ready
    st' ← merge_batch batch_results (record st {
      execution_batches =
          st.execution_batches ++ record { batch_index = st.batch_index; addresses = ready } ∷ [];
      metrics = record_batch st.metrics;
    })
    ok (record st' { batch_index = st.batch_index + 1 })

  -- The `while` loop: it ends in the round that finds no node ready.
  unfoldable pub rounds : ℕ → RunState → Result Error RunState
  unfolding run_ready skip_items ready_nodes unresolved_items
  rounds zero st = err out_of_fuel
  rounds (suc fuel) st = do
    marked ← mark_skipped_nodes incoming env st.node_results
    ready ← ready_nodes incoming marked
    elim ready [
      | [] ↦ ok (record st { node_results = mark_unresolved_nodes env marked })
      | a ∷ more ↦ do
        st' ← run_ready (record st { node_results = marked }) (a ∷ more)
        rounds fuel st'
    ]

-- `{node.address: NodeScanResult(address=node.address, status=PENDING) for node in graph.nodes}`
unfoldable pub initial_results : List ProtocolNode → Results → Results
initial_results [] d = d
initial_results (n ∷ ns) d = initial_results ns (
    put d n.address (record {
      address = n.address;
      status = pending;
      analysis = none;
      error = none;
      duration_ms = 0;
      retry_count = 0;
      started_at = none;
      completed_at = none;
    }))

abbrev pub initial_state : ProtocolGraph → RunState
initial_state g = record {
  node_results = initial_results g.nodes [];
  execution_order = [];
  execution_batches = [];
  batch_index = 0;
  metrics = no_metrics;
}

-- The loop of `run`. Every round but the last scans a node, so one more round than nodes is enough.
unfoldable pub run_loop : Env → RetryPolicy → ProtocolGraph → Result Error RunState
unfolding rounds initial_results build_incoming
run_loop env policy g = rounds env policy (build_incoming g) (length g.nodes + 1) (initial_state g)
