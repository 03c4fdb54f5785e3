-- ===== src/Scheduler/Run/Merging.antt =====
-- The results of a batch go into the state: one scan each.
use chain_sentinel.Base.{
  ℕ, String, ◌≡◌, refl, sym, ◌∙◌, subst, inl, inr, true, false, some, List, [], ◌∷◌, ◌++◌, arith,
  eq_iff, length, length-append, mem, get, put, get-put, ok, Distinct, length-append,
}
use chain_sentinel.Graph.{AdjacencyMap}
use chain_sentinel.Scheduler.Models.{NodeScanStatus, completed, is_pending, NodeScanResult, Results}
use chain_sentinel.Scheduler.Incoming.{dependencies}
use chain_sentinel.Scheduler.Worker.{merge_result}
use chain_sentinel.Scheduler.Run.{RunState, lookup, merge_item, merge_batch}
use chain_sentinel.Scheduler.Run.Status.{HasStatus, IsJustified, put-Step}
use chain_sentinel.Scheduler.Run.Moves.{Moves, stay, move, Moves-trans}
use chain_sentinel.Scheduler.Run.Batch.{IsScan, ScanFacts, BatchFacts}
use chain_sentinel.Scheduler.Run.Tracking.{Tracks, completed-Tracks, failed-Tracks}

-- The counts of a state agree with its lists.
abbrev pub Counts : RunState → Type 0
Counts st =
    (st.metrics.nodes_scanned ≡ length st.execution_order)
    × (st.metrics.parallel_batches_executed ≡ length st.execution_batches)

module _ (incoming : AdjacencyMap) where
  -- The nodes of a batch, before it: pending, and ready.
  abbrev pub AllReady : Results → List String → Type 0
  AllReady d nodes =
      (x : String)
      → mem x nodes ≡ true
      → (q : NodeScanResult) × (get d x ≡ some q)
        × (is_pending q.status ≡ true)
        × ((y : String) → mem y (dependencies incoming x) ≡ true → HasStatus d y completed)

  AllReady-put :
      (d : Results) (a : String) (q r : NodeScanResult) (nodes : List String)
      → get d a ≡ some q
      → is_pending q.status ≡ true
      → mem a nodes ≡ false
      → AllReady d (a ∷ nodes)
      → AllReady (put d a r) nodes
  unfolding mem
  AllReady-put d a q r nodes found p absent h x m =
      let (q', at_x, p', deps) = h x (ground arith) in
      (
        q',
        ground (arith, get-put d a x r, eq_iff a x),
        p',
        λ y my. (put-Step d a q r found p).settled y completed refl (deps y my),
      )

  scanned-IsJustified :
      (d : Results) (a : String) {s : NodeScanStatus}
      → IsScan s
      → ((y : String) → mem y (dependencies incoming a) ≡ true → HasStatus d y completed)
      → IsJustified incoming d a s
  scanned-IsJustified d a (inl e) deps = rw e deps
  scanned-IsJustified d a (inr e) deps = rw e deps

  -- What is known of a state after a batch.
  pub record Merged (scans : ℕ) (st st' : RunState) : Type 0 where
    pub moves : Moves incoming IsScan scans st.node_results st'.node_results
    pub tracks : Tracks incoming st'.execution_order st'.node_results
    pub batches : st'.execution_batches ≡ st.execution_batches
    pub counts : Counts st → Counts st'

  module _ (st : RunState) (a : String) (q r : NodeScanResult)
      (found : get st.node_results a ≡ some q) (open_node : is_pending q.status ≡ true)
      (facts : ScanFacts a r)
      (deps : (y : String)
        → mem y (dependencies incoming a) ≡ true
        → HasStatus st.node_results y completed)
      (t : Tracks incoming st.execution_order st.node_results) where
    node_results-merge_item :
        (merge_item st q r).node_results ≡ put st.node_results a (merge_result q r)
    unfolding merge_item
    node_results-merge_item = ground arith

    status-merge_result : (merge_result q r).status ≡ r.status
    unfolding merge_result
    status-merge_result = refl

    merge_item-Tracks :
        Tracks incoming (merge_item st q r).execution_order (merge_item st q r).node_results
    merge_item-Tracks = elim facts.1 [
      | inl s ↦
          let order : (merge_item st q r).execution_order ≡ st.execution_order ++ a ∷ [] =
            unfold merge_item in ground arith in
          rw (order, node_results-merge_item)
            (completed-Tracks incoming st.execution_order st.node_results a q (merge_result q r)
              found open_node t (status-merge_result ∙ s) deps)
      | inr s ↦
          let order : (merge_item st q r).execution_order ≡ st.execution_order =
            unfold merge_item in ground arith in
          rw (order, node_results-merge_item)
            (failed-Tracks incoming st.execution_order st.node_results a q (merge_result q r) found
              open_node t (status-merge_result ∙ s))
    ]

    merge_item-Merged : Merged 1 st (merge_item st q r)
    merge_item-Merged = record {
      moves = rw node_results-merge_item (
          move a q (merge_result q r) found open_node (unfold merge_result in ground arith)
            (rw status-merge_result (scanned-IsJustified st.node_results a facts.1 deps))
            (rw status-merge_result facts.1) stay);
      tracks = merge_item-Tracks;
      batches = unfold merge_item in ground arith;
      counts = λ (n, b).
          unfold merge_item in
          (ground (arith, length-append st.execution_order (r.address ∷ [])), ground arith);
    }

  lookup-found :
      (d : Results) (a : String) (q : NodeScanResult) → get d a ≡ some q → lookup d a ≡ ok q
  lookup-found d a q found = ground arith

  merge_batch-cons :
      (r q : NodeScanResult) (rs : List NodeScanResult) (st : RunState) (a : String)
      → r.address ≡ a
      → get st.node_results a ≡ some q
      → merge_batch (r ∷ rs) st ≡ merge_batch rs (merge_item st q r)
  unfolding merge_batch
  merge_batch-cons r q rs st a same found = rw (same, lookup-found st.node_results a q found)

  -- The results of distinct ready nodes go in without a fault, one move each.
  pub merge_batch_lem :
      (nodes : List String) (rs : List NodeScanResult) (st : RunState)
      → BatchFacts nodes rs
      → Distinct nodes
      → AllReady st.node_results nodes
      → Tracks incoming st.execution_order st.node_results
      → (st' : RunState) × (merge_batch rs st ≡ ok st') × Merged (length nodes) st st'
  unfolding mem
  merge_batch_lem [] [] st facts distinct ready t = (
    st,
    unfold merge_batch in refl,
    record { moves = stay; tracks = t; batches = refl; counts = λ c. c },
  )
  merge_batch_lem [] (r ∷ rs) st facts distinct ready t = absurd facts
  merge_batch_lem (a ∷ nodes) [] st facts distinct ready t = absurd facts
  merge_batch_lem (a ∷ nodes) (r ∷ rs) st facts distinct ready t =
      let (q, found, p, deps) = ready a (ground (arith, eq_iff a a)) in
      let one = merge_item-Merged st a q r found p facts.0 deps t in
      let here = node_results-merge_item st a q r found p facts.0 deps t in
      let left =
        AllReady-put st.node_results a q (merge_result q r) nodes found p distinct.0 ready in
      let (st', got, rest) =
        merge_batch_lem nodes rs (merge_item st q r) facts.1 distinct.1
          (subst (λ e. AllReady e nodes) (sym here) left) one.tracks in
      (
        st',
        merge_batch-cons r q rs st a facts.0.0 found ∙ got,
        record {
          moves = Moves-trans one.moves rest.moves (omega arith);
          tracks = rest.tracks;
          batches = rest.batches ∙ one.batches;
          counts = λ c. rest.counts (one.counts c);
        },
      )
