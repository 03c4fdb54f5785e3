-- ===== src/Scheduler/Outcome.antt =====
-- What a run returns.
use chain_sentinel.Base.{
  ◌<◌, String, ◌≡◌, refl, sym, ◌∙◌, ◌↔◌, ◌⊎◌, true, false, some, List, [], ◌∷◌, arith, eq_iff,
  length, text_le, sort_by, mem, get, ok, map_result, Distinct, mem-sort_by_key, map_result,
}
use chain_sentinel.Graph.{ProtocolGraph, ProtocolNode, addresses}
use chain_sentinel.Scheduler.Models.{
  NodeScanStatus, pending, running, completed, failed, skipped, is_pending, NodeScanResult, Results,
}
use chain_sentinel.Scheduler.Incoming.{has_edge, build_incoming, mem-dependencies}
use chain_sentinel.Scheduler.Worker.{Env}
use chain_sentinel.Scheduler.Retry.{RetryPolicy}
use chain_sentinel.Scheduler.Run.{RunState, lookup, run_loop}
use chain_sentinel.Scheduler.Run.Status.{HasStatus, IsPresent, IsJustified}
use chain_sentinel.Scheduler.Run.Tracking.{IsOrdered}
use chain_sentinel.Scheduler.Run.Start.{HasSources, run_loop-Finished}
use chain_sentinel.Scheduler.Aggregate.{
  ProtocolScanResult, completed_of, ordered_results, summary, run,
}

-- The statuses that a finished run gives to a node, and what they say of its dependencies.
abbrev pub Verdict : ProtocolGraph → Results → String → NodeScanStatus → Type 0
Verdict g d a completed =
    (x : String) → has_edge g.adjacency_map x a ≡ true → HasStatus d x completed
Verdict g d a failed = (x : String) → has_edge g.adjacency_map x a ≡ true → HasStatus d x completed
Verdict g d a skipped =
    (x : String) × (has_edge g.adjacency_map x a ≡ true)
    × (HasStatus d x failed ⊎ HasStatus d x skipped)
Verdict g d a _ = ⊥

justified-Verdict :
    (g : ProtocolGraph) (d : Results) (a : String) (s : NodeScanStatus)
    → is_pending s ≡ false
    → IsJustified (build_incoming g) d a s
    → Verdict g d a s
justified-Verdict g d a pending n h = cc
justified-Verdict g d a running n h = h
justified-Verdict g d a completed n h = λ x e. h x (mem-dependencies g x a ∙ e)
justified-Verdict g d a failed n h = λ x e. h x (mem-dependencies g x a ∙ e)
justified-Verdict g d a skipped n (x, m, b) = (x, sym (mem-dependencies g x a) ∙ m, b)

completed_of_recorded :
    (d : Results) (order : List String)
    → ((a : String) → mem a order ≡ true → HasStatus d a completed)
    → completed_of d order ≡ ok order
unfolding completed_of mem
completed_of_recorded d [] h = refl
completed_of_recorded d (a ∷ order) h =
    let (r, found, s) = h a (ground (arith, eq_iff a a)) in
    ground (arith, completed_of_recorded d order (λ b m. h b (ground arith)))

mem-sorted_nodes :
    (a : String) (ns : List ProtocolNode)
    → mem a (addresses (sort_by (λ x y. text_le x.address y.address) ns)) ≡ mem a (addresses ns)
mem-sorted_nodes a ns = mem-sort_by_key (λ n. n.address) (λ x y. text_le x.address y.address) a ns

-- The results of the nodes, in the order of the nodes.
abbrev pub ResultsOf : Results → List ProtocolNode → List NodeScanResult → Type 0
ResultsOf d [] [] = Unit
ResultsOf d (n ∷ ns) (r ∷ rs) = (get d n.address ≡ some r) × ResultsOf d ns rs
ResultsOf d _ _ = ⊥

map_result-ResultsOf :
    (d : Results) (ns : List ProtocolNode)
    → ((a : String) → mem a (addresses ns) ≡ true → IsPresent d a)
    → (rs : List NodeScanResult) × (map_result (λ n. lookup d n.address) ns ≡ ok rs)
      × ResultsOf d ns rs
unfolding map_result mem
map_result-ResultsOf d [] h = ([], refl, tt)
map_result-ResultsOf d (n ∷ ns) h =
    let (r, found) = h n.address (ground (arith, eq_iff n.address n.address)) in
    let (rs, got, rest) = map_result-ResultsOf d ns (λ a m. h a (ground arith)) in
    (r ∷ rs, ground arith, (found, rest))

-- For a valid policy and a graph whose edges start at nodes: the loop ends without an exception,
-- and no node is left pending or running. A node that was scanned has only completed dependencies;
-- a node that was skipped has a dependency that failed or was skipped itself.
pub run_loop-Verdict :
    (env : Env) (policy : RetryPolicy) (g : ProtocolGraph)
    → 0 < policy.max_attempts
    → HasSources g
    → (st : RunState) × (run_loop env policy g ≡ ok st)
      × ((a : String) (r : NodeScanResult)
          → get st.node_results a ≡ some r
          → Verdict g st.node_results a r.status)
run_loop-Verdict env policy g valid sources =
    let (st, ran, done, _) = run_loop-Finished g sources env policy valid in
    (
      st,
      ran,
      λ a r found.
          justified-Verdict g st.node_results a r.status (done.none_pending a r found)
            (done.justified a r found),
    )

abbrev pub by_address : List ProtocolNode → List ProtocolNode
by_address = sort_by (λ a b. text_le a.address b.address)

-- What the result of a run says: the completed nodes are the execution order, in which no node
-- comes twice and every node stands behind the sources of its incoming edges; the results are those
-- of the nodes by address; the metrics count the completed nodes and the batches.
pub record RunFacts (g : ProtocolGraph) (d : Results) (res : ProtocolScanResult) : Type 0 where
  pub completed : res.completed_nodes ≡ res.execution_order
  pub executed :
      (a : String) → HasStatus d a NodeScanStatus.completed ↔ (mem a res.execution_order ≡ true)
  pub distinct : Distinct res.execution_order
  pub ordered : IsOrdered (build_incoming g) [] res.execution_order
  pub results : ResultsOf d (by_address g.nodes) res.node_results
  pub scanned : res.metrics.nodes_scanned ≡ length res.completed_nodes
  pub batches : res.metrics.parallel_batches_executed ≡ length res.execution_batches

-- For a valid policy and a graph whose edges start at nodes, `run` returns a result, with the facts
-- above about it and about the statuses that the loop ends with.
pub run_lem :
    (env : Env) (policy : RetryPolicy) (g : ProtocolGraph)
    → 0 < policy.max_attempts
    → HasSources g
    → (st : RunState) × (res : ProtocolScanResult) × (run_loop env policy g ≡ ok st)
      × (run env policy g ≡ ok res)
      × RunFacts g st.node_results res
unfolding run ordered_results
run_lem env policy g valid sources =
    let (st, ran, done, present) = run_loop-Finished g sources env policy valid in
    let d = st.node_results in
    let (rs, got, each) =
      map_result-ResultsOf d (by_address g.nodes)
        (λ a m. present a (sym (mem-sorted_nodes a g.nodes) ∙ m)) in
    let same = completed_of_recorded d st.execution_order done.tracks.recorded in
    (
      st,
      summary g st rs st.execution_order,
      ran,
      rw (ran, got, same),
      record {
        completed = refl;
        executed = λ a. (done.tracks.listed a, done.tracks.recorded a);
        distinct = done.tracks.distinct;
        ordered = done.tracks.ordered;
        results = each;
        scanned = done.counts.0;
        batches = done.counts.1;
      },
    )
