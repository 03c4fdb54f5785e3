-- ===== src/Scheduler/Run/Start.antt =====
-- The state that a run starts from, and a whole run of a graph whose edges start at nodes.
use chain_sentinel.Base.{
  suc, ◌+◌, ◌≤◌, ◌<◌, String, ◌≡◌, refl, sym, ◌∙◌, true, ◌||◌, none, some, List, [], ◌∷◌, arith,
  length, mem, get, put, keys, get-put, ok, Distinct, mem-keys-put, Distinct-put, get-mem,
}
use chain_sentinel.Graph.{ProtocolGraph, ProtocolNode, addresses}
use chain_sentinel.Scheduler.Models.{pending, NodeScanResult, Results}
use chain_sentinel.Scheduler.Incoming.{has_edge, build_incoming, mem-dependencies}
use chain_sentinel.Scheduler.Worker.{Env}
use chain_sentinel.Scheduler.Retry.{RetryPolicy}
use chain_sentinel.Scheduler.Run.{RunState, initial_results, initial_state, run_loop}
use chain_sentinel.Scheduler.Run.Status.{IsPresent}
use chain_sentinel.Scheduler.Run.Moves.{pending_count}
use chain_sentinel.Scheduler.Run.Loop.{Invariant, Finished, rounds_lem}

abbrev AllPending : Results → Type 0
AllPending d = (a : String) (r : NodeScanResult) → get d a ≡ some r → r.status ≡ pending

AllPending-put :
    (d : Results) (a : String) (r : NodeScanResult)
    → r.status ≡ pending
    → AllPending d
    → AllPending (put d a r)
AllPending-put d a r p h b q found = ground (arith, get-put d a b r, h b q)

initial_results-AllPending :
    (ns : List ProtocolNode) (d : Results) → AllPending d → AllPending (initial_results ns d)
unfolding initial_results
initial_results-AllPending [] d h = h
initial_results-AllPending (n ∷ ns) d h =
    initial_results-AllPending ns _ (AllPending-put d n.address _ refl h)

mem-initial_results :
    (ns : List ProtocolNode) (d : Results) (a : String)
    → mem a (keys (initial_results ns d)) ≡ (mem a (addresses ns) || mem a (keys d))
unfolding initial_results mem
mem-initial_results [] d a = refl
mem-initial_results (n ∷ ns) d a =
    mem-initial_results ns _ a
    ∙ ground (
      arith,
      mem-keys-put d n.address a (record {
        address = n.address;
        status = pending;
        analysis = none;
        error = none;
        duration_ms = 0;
        retry_count = 0;
        started_at = none;
        completed_at = none;
      }),
    )

initial_results-Distinct :
    (ns : List ProtocolNode) (d : Results)
    → Distinct (keys d)
    → Distinct (keys (initial_results ns d))
unfolding initial_results
initial_results-Distinct [] d h = h
initial_results-Distinct (n ∷ ns) d h = initial_results-Distinct ns _ (Distinct-put d n.address _ h)

pending_count-put-le :
    (d : Results) (a : String) (r : NodeScanResult)
    → pending_count (put d a r) ≤ suc (pending_count d)
unfolding pending_count put
pending_count-put-le [] a r = ground arith
pending_count-put-le ((j, u) ∷ d) a r = ground (arith, pending_count-put-le d a r)

pending_count-initial_results :
    (ns : List ProtocolNode) (d : Results)
    → pending_count (initial_results ns d) ≤ length ns + pending_count d
unfolding initial_results
pending_count-initial_results [] d = omega arith
pending_count-initial_results (n ∷ ns) d =
    omega (arith, pending_count-initial_results ns _, pending_count-put-le d n.address _)

-- Every edge of the map starts at a node of the graph.
abbrev pub HasSources : ProtocolGraph → Type 0
HasSources g =
    (s t : String) → has_edge g.adjacency_map s t ≡ true → mem s (addresses g.nodes) ≡ true

module _ (g : ProtocolGraph) (sources : HasSources g) where
  IsPresent-initial :
      (a : String) → mem a (addresses g.nodes) ≡ true → IsPresent (initial_results g.nodes []) a
  IsPresent-initial a m =
      get-mem (initial_results g.nodes []) a (ground (arith, mem-initial_results g.nodes [] a))

  Invariant-initial : Invariant (build_incoming g) (initial_state g)
  unfolding mem get pending_count
  Invariant-initial = record {
    justified = λ a r found. rw (initial_results-AllPending g.nodes [] (λ b q h. cc) a r found) tt;
    tracks = record {
      recorded = λ a m. cc;
      listed = λ a (r, found, s).
          let p = initial_results-AllPending g.nodes [] (λ b q h. cc) a r found in
          absurd (ground arith);
      distinct = tt;
      ordered = tt;
    };
    distinct = initial_results-Distinct g.nodes [] tt;
    known = λ a x m. IsPresent-initial x (sources x a (sym (mem-dependencies g x a) ∙ m));
    counts = (refl, refl);
  }

  -- The run raises nothing, its loop ends within the rounds that it has, and no node is lost.
  pub run_loop-Finished :
      (env : Env) (policy : RetryPolicy)
      → 0 < policy.max_attempts
      → (st : RunState) × (run_loop env policy g ≡ ok st)
        × Finished (build_incoming g) st
        × ((a : String) → mem a (addresses g.nodes) ≡ true → IsPresent st.node_results a)
  unfolding run_loop pending_count
  run_loop-Finished env policy valid =
      let (st, ran, done, step) =
        rounds_lem (build_incoming g) env policy valid (length g.nodes + 1) (initial_state g)
          (omega (arith, pending_count-initial_results g.nodes [])) Invariant-initial in
      (st, ran, done, λ a m. step.present a (IsPresent-initial a m))
