-- ===== src/Scheduler/Run/Tracking.antt =====
-- What the execution order of a run says of the statuses, and that a batch keeps it.
use chain_sentinel.Base.{
  ℕ, String, ◌≡◌, refl, inl, inr, true, false, ◌||◌, some, List, [], ◌∷◌, ◌++◌, arith, ◌==◌, eq_iff,
  Bool-cases, mem, mem-append, get, put, get-put, Distinct, Distinct-snoc, mem-append,
}
use chain_sentinel.Graph.{AdjacencyMap}
use chain_sentinel.Scheduler.Models.{
  NodeScanStatus, completed, failed, is_pending, NodeScanResult, Results,
}
use chain_sentinel.Scheduler.Incoming.{dependencies}
use chain_sentinel.Scheduler.Run.Status.{HasStatus, put-Step}
use chain_sentinel.Scheduler.Run.Moves.{Moves, Moves-Step, Moves-HasStatus}

module _ (incoming : AdjacencyMap) where
  -- The dependencies of each node stand before it, or in `seen`.
  abbrev pub IsOrdered : List String → List String → Type 0
  IsOrdered seen [] = Unit
  IsOrdered seen (a ∷ order) =
      ((x : String) → mem x (dependencies incoming a) ≡ true → mem x seen ≡ true)
      × IsOrdered (a ∷ seen) order

  IsOrdered-snoc :
      (seen order : List String) (a : String)
      → IsOrdered seen order
      → ((x : String) → mem x (dependencies incoming a) ≡ true → (mem x seen || mem x order) ≡ true)
      → IsOrdered seen (order ++ a ∷ [])
  unfolding mem
  IsOrdered-snoc seen [] a h last = (λ x m. ground (arith, last x m), tt)
  IsOrdered-snoc seen (b ∷ order) a h last =
      (h.0, IsOrdered-snoc (b ∷ seen) order a h.1 (λ x m. ground (arith, last x m)))

  -- The execution order lists the completed nodes, each once and behind its dependencies.
  pub record Tracks (order : List String) (d : Results) : Type 0 where
    pub recorded : (a : String) → mem a order ≡ true → HasStatus d a completed
    pub listed : (a : String) → HasStatus d a completed → mem a order ≡ true
    pub distinct : Distinct order
    pub ordered : IsOrdered [] order

  -- Changes that complete no node leave the order right.
  pub Moves-Tracks :
      {P : NodeScanStatus → Type 0} {n : ℕ} {d d' : Results} (order : List String)
      → ¬ P completed
      → Moves incoming P n d d'
      → Tracks order d
      → Tracks order d'
  Moves-Tracks order other m t = record {
    recorded = λ a h. (Moves-Step m).settled a completed refl (t.recorded a h);
    listed = λ a h. t.listed a (Moves-HasStatus a completed other m h);
    distinct = t.distinct;
    ordered = t.ordered;
  }

  pending-not-recorded :
      (order : List String) (d : Results) (a : String) (q : NodeScanResult)
      → Tracks order d
      → get d a ≡ some q
      → is_pending q.status ≡ true
      → mem a order ≡ false
  pending-not-recorded order d a q t found p = elim (Bool-cases (mem a order)) [
    | inl m ↦ let (r, at_a, s) = t.recorded a m in absurd (ground arith)
    | inr m ↦ m
  ]

  module _ (order : List String) (d : Results) (a : String) (q r : NodeScanResult)
      (found : get d a ≡ some q) (open_node : is_pending q.status ≡ true) (t : Tracks order d) where
    pub completed-Tracks :
        r.status ≡ completed
        → ((x : String) → mem x (dependencies incoming a) ≡ true → HasStatus d x completed)
        → Tracks (order ++ a ∷ []) (put d a r)
    unfolding mem
    completed-Tracks s deps = record {
      recorded = λ b m. elim (Bool-cases (a == b)) [
        | inl e ↦ (r, rw (get-put, e), s)
        | inr e ↦
            (put-Step d a q r found open_node).settled b completed refl
              (t.recorded b (ground (arith, mem-append b order (a ∷ []), eq_iff a b, eq_iff b a)))
      ];
      listed = λ b (r', at_b, s'). elim (Bool-cases (a == b)) [
        | inl e ↦ ground (arith, mem-append b order (a ∷ []), eq_iff a b, eq_iff b a)
        | inr e ↦
            let old = t.listed b (r', ground (arith, get-put d a b r), s') in
            ground (arith, mem-append b order (a ∷ []))
      ];
      distinct =
          Distinct-snoc order a t.distinct (pending-not-recorded order d a q t found open_node);
      ordered = IsOrdered-snoc [] order a t.ordered (λ x m. ground (arith, t.listed x (deps x m)));
    }

    pub failed-Tracks : r.status ≡ failed → Tracks order (put d a r)
    failed-Tracks s = record {
      recorded =
          λ b m. (put-Step d a q r found open_node).settled b completed refl (t.recorded b m);
      listed = λ b (r', at_b, s'). elim (Bool-cases (a == b)) [
        | inl e ↦ absurd (ground (arith, get-put d a b r))
        | inr e ↦ t.listed b (r', ground (arith, get-put d a b r), s')
      ];
      distinct = t.distinct;
      ordered = t.ordered;
    }
