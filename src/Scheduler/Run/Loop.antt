-- ===== src/Scheduler/Run/Loop.antt =====
-- The loop of `run`: it ends, and what holds of the state that it ends with.
use chain_sentinel.Base.{
  ℕ, zero, suc, ◌+◌, ◌<◌, String, ◌≡◌, refl, ◌∙◌, false, some, List, [], ◌∷◌, ◌++◌, arith, length,
  length-append, get, keys, ok, Distinct, Fits-self, length-append,
}
use chain_sentinel.Graph.{AdjacencyMap}
use chain_sentinel.Scheduler.Models.{completed, is_pending, NodeScanResult, Results, ExecutionBatch}
use chain_sentinel.Scheduler.Worker.{Env, record_batch}
use chain_sentinel.Scheduler.Retry.{RetryPolicy}
use chain_sentinel.Scheduler.Run.{
  RunState, run_ready, rounds, ready_nodes, mark_skipped_nodes, mark_unresolved_nodes,
}
use chain_sentinel.Scheduler.Run.Status.{AllJustified, Step, Step-trans}
use chain_sentinel.Scheduler.Run.Moves.{
  Moves, Moves-Step, Moves-AllJustified, Moves-keys, Moves-pending_count, pending_count,
}
use chain_sentinel.Scheduler.Run.Skips.{IsSkip, AllKnown, AllKnown-Step, skip_items-Moves}
use chain_sentinel.Scheduler.Run.Ready.{ReadyFacts, ready_nodes_lem}
use chain_sentinel.Scheduler.Run.Batch.{run_batch_total}
use chain_sentinel.Scheduler.Run.Unresolved.{
  Step-final, AllJustified-final, final-not-pending, HasStatus-final-completed,
}
use chain_sentinel.Scheduler.Run.Tracking.{Tracks, Moves-Tracks}
use chain_sentinel.Scheduler.Run.Merging.{Counts, merge_batch_lem}

module _ (incoming : AdjacencyMap) where
  pub record Invariant (st : RunState) : Type 0 where
    pub justified : AllJustified incoming st.node_results
    pub tracks : Tracks incoming st.execution_order st.node_results
    pub distinct : Distinct (keys st.node_results)
    pub known : AllKnown incoming st.node_results
    pub counts : Counts st

  -- The loop is over: nothing is pending, and every status is justified.
  pub record Finished (st : RunState) : Type 0 where
    pub none_pending :
        (a : String) (q : NodeScanResult)
        → get st.node_results a ≡ some q
        → is_pending q.status ≡ false
    pub justified : AllJustified incoming st.node_results
    pub tracks : Tracks incoming st.execution_order st.node_results
    pub counts : Counts st

  module _ (env : Env) (policy : RetryPolicy) (valid : 0 < policy.max_attempts) where
    -- A batch that is not empty scans at least one node, and keeps the invariant.
    run_ready_lem :
        (st : RunState) (ready : List String)
        → Invariant st
        → ReadyFacts incoming st.node_results st.node_results ready
        → (st' : RunState) × (run_ready env policy incoming st ready ≡ ok st')
          × Invariant st'
          × (pending_count st'.node_results + length ready ≡ pending_count st.node_results)
          × Step st.node_results st'.node_results
    unfolding run_ready
    run_ready_lem st ready inv facts =
        let (rs, scanned, results) = run_batch_total env policy valid ready in
        let batch : ExecutionBatch = record { batch_index = st.batch_index; addresses = ready } in
        let begun : RunState = record st {
          execution_batches = st.execution_batches ++ batch ∷ [];
          metrics = record_batch st.metrics;
        } in
        let (st', merged, m) =
          merge_batch_lem incoming ready rs begun results facts.distinct facts.sound inv.tracks in
        (
          record st' { batch_index = st.batch_index + 1 },
          rw (scanned, merged),
          record {
            justified = Moves-AllJustified m.moves inv.justified;
            tracks = m.tracks;
            distinct = rw (Moves-keys m.moves) inv.distinct;
            known = AllKnown-Step incoming (Moves-Step m.moves) inv.known;
            counts = m.counts (
              inv.counts.0,
              omega (arith, length-append st.execution_batches (batch ∷ []), inv.counts.1),
            );
          },
          Moves-pending_count m.moves,
          Moves-Step m.moves,
        )

    -- The state after the skipping pass.
    Invariant-marked :
        (st : RunState) {n : ℕ} {d : Results}
        → Moves incoming IsSkip n st.node_results d
        → Invariant st
        → Invariant (record st { node_results = d })
    Invariant-marked st m inv = record {
      justified = Moves-AllJustified m inv.justified;
      tracks = Moves-Tracks incoming st.execution_order (λ e. cc) m inv.tracks;
      distinct = rw (Moves-keys m) inv.distinct;
      known = AllKnown-Step incoming (Moves-Step m) inv.known;
      counts = inv.counts;
    }

    Finished-final :
        (st : RunState)
        → Invariant st
        → ReadyFacts incoming st.node_results st.node_results []
        → Finished (record st { node_results = mark_unresolved_nodes env st.node_results })
    Finished-final st inv facts =
        let d = st.node_results in
        record {
          none_pending = final-not-pending incoming env d inv.distinct inv.justified facts;
          justified = AllJustified-final incoming env d inv.distinct inv.justified facts;
          tracks = record {
            recorded = λ a m.
                (Step-final incoming env d inv.distinct inv.justified facts).settled a completed
                  refl (inv.tracks.recorded a m);
            listed = λ a h.
                inv.tracks.listed a
                  (HasStatus-final-completed incoming env d inv.distinct inv.justified facts a h);
            distinct = inv.tracks.distinct;
            ordered = inv.tracks.ordered;
          };
          counts = inv.counts;
        }

    rounds-last :
        (fuel : ℕ) (st : RunState) (d : Results)
        → mark_skipped_nodes incoming env st.node_results ≡ ok d
        → ready_nodes incoming d ≡ ok []
        → rounds env policy incoming (suc fuel) st
          ≡ ok (record st { node_results = mark_unresolved_nodes env d })
    unfolding rounds
    rounds-last fuel st d marked ready = rw (marked, ready)

    rounds-more :
        (fuel : ℕ) (st st' : RunState) (d : Results) (a : String) (more : List String)
        → mark_skipped_nodes incoming env st.node_results ≡ ok d
        → ready_nodes incoming d ≡ ok (a ∷ more)
        → run_ready env policy incoming (record st { node_results = d }) (a ∷ more) ≡ ok st'
        → rounds env policy incoming (suc fuel) st ≡ rounds env policy incoming fuel st'
    unfolding rounds
    rounds-more fuel st st' d a more marked ready ran = rw (marked, ready, ran)

    -- With more rounds than pending nodes, the loop ends.
    pub rounds_lem :
        (fuel : ℕ) (st : RunState)
        → pending_count st.node_results < fuel
        → Invariant st
        → (st' : RunState) × (rounds env policy incoming fuel st ≡ ok st')
          × Finished st'
          × Step st.node_results st'.node_results
    rounds_lem zero st bound inv = absurd (omega arith)
    rounds_lem (suc fuel) st bound inv =
        let (n, d, marked, m) =
          skip_items-Moves incoming env st.node_results st.node_results inv.distinct
            (Fits-self st.node_results inv.distinct) inv.known in
        let inv' = Invariant-marked st m inv in
        let (ready, found, facts) = ready_nodes_lem incoming d inv'.distinct inv'.known in
        after_marking n d marked m inv' ready found facts (rounds_lem fuel)
      where
        after_marking :
            (n : ℕ) (d : Results)
            → mark_skipped_nodes incoming env st.node_results ≡ ok d
            → Moves incoming IsSkip n st.node_results d
            → Invariant (record st { node_results = d })
            → (ready : List String) → ready_nodes incoming d ≡ ok ready
            → ReadyFacts incoming d d ready
            → ((st' : RunState)
                → pending_count st'.node_results < fuel
                → Invariant st'
                → (end : RunState) × (rounds env policy incoming fuel st' ≡ ok end)
                  × Finished end
                  × Step st'.node_results end.node_results)
            → (end : RunState) × (rounds env policy incoming (suc fuel) st ≡ ok end)
              × Finished end
              × Step st.node_results end.node_results
        after_marking n d marked m inv' [] found facts next = (
          record st { node_results = mark_unresolved_nodes env d },
          rounds-last fuel st d marked found,
          Finished-final (record st { node_results = d }) inv' facts,
          Step-trans (Moves-Step m) (Step-final incoming env d inv'.distinct inv'.justified facts),
        )
        after_marking n d marked m inv' (a ∷ more) found facts next =
            let (st', ran, inv'', fewer, step) =
              run_ready_lem (record st { node_results = d }) (a ∷ more) inv' facts in
            let (end, got, done, rest) =
              next st' (omega (arith, Moves-pending_count m, fewer)) inv'' in
            (
              end,
              rounds-more fuel st st' d a more marked found ran ∙ got,
              done,
              Step-trans (Moves-Step m) (Step-trans step rest),
            )
