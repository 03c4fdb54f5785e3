-- ===== src/Scheduler/Run/Ready.antt =====
-- The pass that finds the ready nodes.
use chain_sentinel.Base.{
  String, ◌≡◌, refl, inl, inr, Bool, true, false, some, List, [], ◌∷◌, arith, ◌==◌, eq_iff,
  if◌then◌else◌, Bool-cases, All, sorted, mem, mem-sorted, get, keys, ok, Distinct, Distinct-sorted,
  Fits, Fits-self,
}
use chain_sentinel.Graph.{AdjacencyMap}
use chain_sentinel.Scheduler.Models.{completed, is_pending, NodeScanResult, Results}
use chain_sentinel.Scheduler.Incoming.{dependencies}
use chain_sentinel.Scheduler.Run.{is_ready, ready_items, ready_nodes, all_completed}
use chain_sentinel.Scheduler.Run.Status.{HasStatus}
use chain_sentinel.Scheduler.Run.Skips.{AllKnown}
use chain_sentinel.Scheduler.Run.Scans.{all_completed_total, all_completed-true}

module _ (incoming : AdjacencyMap) where
  -- What the ready pass says of the items that it went over.
  pub record ReadyFacts (d items : Results) (ready : List String) : Type 0 where
    pub sound :
        (x : String)
        → mem x ready ≡ true
        → (r : NodeScanResult) × (get d x ≡ some r)
          × (is_pending r.status ≡ true)
          × ((y : String) → mem y (dependencies incoming x) ≡ true → HasStatus d y completed)
    pub among : (x : String) → mem x ready ≡ true → mem x (keys items) ≡ true
    pub distinct : Distinct ready
    pub complete :
        All
          (λ e.
            is_pending e.1.status ≡ true
            → mem e.0 ready ≡ false
            → all_completed d (dependencies incoming e.0) ≡ ok false)
          items

  is_ready_total :
      (d : Results) (a : String) (r : NodeScanResult)
      → AllKnown incoming d
      → (b : Bool) × (is_ready incoming d a r ≡ ok b)
  unfolding is_ready
  is_ready_total d a r known =
      let (b, got) = all_completed_total d (dependencies incoming a) (known a) in
      (if is_pending r.status then b else false, ground arith)

  is_ready-true :
      (d : Results) (a : String) (r : NodeScanResult)
      → is_ready incoming d a r ≡ ok true
      → (is_pending r.status ≡ true) × (all_completed d (dependencies incoming a) ≡ ok true)
  unfolding is_ready
  is_ready-true d a r h = ground arith

  is_ready-false :
      (d : Results) (a : String) (r : NodeScanResult)
      → is_ready incoming d a r ≡ ok false
      → is_pending r.status ≡ true
      → all_completed d (dependencies incoming a) ≡ ok false
  unfolding is_ready
  is_ready-false d a r h p = ground arith

  All-skip_mem :
      (d items : Results) (a : String) (ready : List String)
      → All
          (λ e.
            is_pending e.1.status ≡ true
            → mem e.0 ready ≡ false
            → all_completed d (dependencies incoming e.0) ≡ ok false)
          items
      → All
          (λ e.
            is_pending e.1.status ≡ true
            → mem e.0 (a ∷ ready) ≡ false
            → all_completed d (dependencies incoming e.0) ≡ ok false)
          items
  unfolding mem
  All-skip_mem d [] a ready h = tt
  All-skip_mem d ((b, q) ∷ items) a ready h =
      (λ p m. h.0 p (ground arith), All-skip_mem d items a ready h.1)

  ReadyFacts-cons :
      (d items : Results) (a : String) (r : NodeScanResult) (ready : List String)
      → get d a ≡ some r
      → mem a (keys items) ≡ false
      → is_ready incoming d a r ≡ ok true
      → ReadyFacts d items ready
      → ReadyFacts d ((a, r) ∷ items) (a ∷ ready)
  unfolding mem
  ReadyFacts-cons d items a r ready found absent h facts =
      let (p, deps) = is_ready-true d a r h in
      record {
        sound = λ x m. elim (Bool-cases (x == a)) [
          | inl e ↦
              let same : x ≡ a = (eq_iff x a).0 e in
              rw same (r, found, p, all_completed-true d (dependencies incoming a) deps)
          | inr e ↦ facts.sound x (ground arith)
        ];
        among = λ x m. ground (arith, facts.among x);
        distinct = (ground (arith, facts.among a), facts.distinct);
        complete = (
          λ q m. absurd (ground (arith, eq_iff a a)),
          All-skip_mem d items a ready facts.complete,
        );
      }

  ReadyFacts-pass :
      (d items : Results) (a : String) (r : NodeScanResult) (ready : List String)
      → is_ready incoming d a r ≡ ok false
      → ReadyFacts d items ready
      → ReadyFacts d ((a, r) ∷ items) ready
  unfolding mem
  ReadyFacts-pass d items a r ready h facts = record {
    sound = facts.sound;
    among = λ x m. ground (arith, facts.among x);
    distinct = facts.distinct;
    complete = (λ p m. is_ready-false d a r h p, facts.complete);
  }

  ready_items_lem :
      (d items : Results)
      → Distinct (keys items)
      → Fits items d
      → AllKnown incoming d
      → (ready : List String) × (ready_items incoming d items ≡ ok ready) × ReadyFacts d items ready
  unfolding ready_items mem
  ready_items_lem d [] distinct fits known =
      ([], refl, record { sound = λ x m. cc; among = λ x m. m; distinct = tt; complete = tt })
  ready_items_lem d ((a, r) ∷ items) distinct fits known =
      let (rest, got, facts) = ready_items_lem d items distinct.1 fits.1 known in
      let (b, test) = is_ready_total d a r known in
      elim (Bool-cases b) [
        | inl e ↦ (
          a ∷ rest,
          rw (test, got, e),
          ReadyFacts-cons d items a r rest fits.0 distinct.0 (rw e at test) facts,
        )
        | inr e ↦ (rest, rw (test, got, e), ReadyFacts-pass d items a r rest (rw e at test) facts)
      ]

  All-sorted-mem :
      (d items : Results) (ready : List String)
      → All
          (λ e.
            is_pending e.1.status ≡ true
            → mem e.0 ready ≡ false
            → all_completed d (dependencies incoming e.0) ≡ ok false)
          items
      → All
          (λ e.
            is_pending e.1.status ≡ true
            → mem e.0 (sorted ready) ≡ false
            → all_completed d (dependencies incoming e.0) ≡ ok false)
          items
  All-sorted-mem d [] ready h = tt
  All-sorted-mem d ((b, q) ∷ items) ready h =
      (λ p m. h.0 p (rw (mem-sorted b ready) at m), All-sorted-mem d items ready h.1)

  -- The ready nodes: each is pending with all its dependencies completed, none comes twice, and
  -- a pending node that is not among them has a dependency that is not completed.
  pub ready_nodes_lem :
      (d : Results)
      → Distinct (keys d)
      → AllKnown incoming d
      → (ready : List String) × (ready_nodes incoming d ≡ ok ready) × ReadyFacts d d ready
  unfolding ready_nodes
  ready_nodes_lem d distinct known =
      let (ready, got, facts) = ready_items_lem d d distinct (Fits-self d distinct) known in
      (
        sorted ready,
        rw got,
        record {
          sound = λ x m. facts.sound x (rw (mem-sorted x ready) at m);
          among = λ x m. facts.among x (rw (mem-sorted x ready) at m);
          distinct = Distinct-sorted ready facts.distinct;
          complete = All-sorted-mem d d ready facts.complete;
        },
      )
