-- ===== src/Graph/Traversal/Bfs.antt =====
-- The breadth-first search of protocol_graph/traversal.py, and reachability.
use chain_sentinel.Base.{
  ℕ, zero, suc, ◌+◌, String, ◌≡◌, refl, sym, ◌∙◌, subst, ◌↔◌, inl, inr, true, ◌||◌, List, [], ◌∷◌,
  ◌++◌, append-nil, append_assoc, arith, eq_iff, Bool-cases, length, length-append, lower, mem, add,
  mem-append, mem-add, Distinct, Distinct-snoc, length-Within, append_assoc, append-nil, mem-append,
  length-append,
}
use chain_sentinel.Graph.Models.{AdjacencyMap, ProtocolGraph, addresses}
use chain_sentinel.Graph.Traversal.{neighbors, all_targets, enqueue, bfs_loop, bfs}
use chain_sentinel.Graph.Traversal.Reach.{Reach, here, step, Reach-closed, Reach-listed, AllReach}

abbrev Same : List String → List String → Type 0
Same xs ys = (a : String) → mem a xs ≡ mem a ys

-- The inner loop: what it adds to the set it adds to the queue, once.
mem-enqueue :
    (ns seen queue : List String) (a : String)
    → mem a (enqueue ns seen queue).0 ≡ (mem a seen || mem a ns)
unfolding enqueue mem
mem-enqueue [] seen queue a = ground arith
mem-enqueue (n ∷ ns) seen queue a = elim (Bool-cases (mem n seen)) [
  | inl e ↦ rw e (ground (arith, mem-enqueue ns seen queue a, eq_iff a n))
  | inr e ↦ rw e (ground (arith, mem-enqueue ns (add n seen) (queue ++ n ∷ []) a, mem-add a n seen))
]

enqueue-Same :
    (ns seen visited queue : List String)
    → Same seen (visited ++ queue)
    → Distinct (visited ++ queue)
    → Same (enqueue ns seen queue).0 (visited ++ (enqueue ns seen queue).1)
      × Distinct (visited ++ (enqueue ns seen queue).1)
unfolding enqueue mem
enqueue-Same [] seen visited queue same distinct = (same, distinct)
enqueue-Same (n ∷ ns) seen visited queue same distinct = elim (Bool-cases (mem n seen)) [
  | inl e ↦ rw e (enqueue-Same ns seen visited queue same distinct)
  | inr e ↦
      let longer = append_assoc visited queue (n ∷ []) in
      rw e (
        enqueue-Same ns (add n seen) visited (queue ++ n ∷ [])
          (λ a. ground (
            arith,
            mem-add a n seen,
            same a,
            mem-append a visited (queue ++ n ∷ []),
            mem-append a queue (n ∷ []),
            mem-append a visited queue,
          ))
          (subst Distinct longer (Distinct-snoc (visited ++ queue) n distinct (sym (same n) ∙ e))))
]

module _ (d : AdjacencyMap) (start : String) where
  pub record Invariant (visited seen queue : List String) : Type 0 where
    pub same : Same seen (visited ++ queue)
    pub distinct : Distinct (visited ++ queue)
    pub reached : AllReach d start seen
    pub origin : mem start seen ≡ true
    pub closed :
        (a b : String) → mem a visited ≡ true → mem b (neighbors d a) ≡ true → mem b seen ≡ true

  pub Invariant-round :
      (visited seen queue : List String) (current : String)
      → Invariant visited seen (current ∷ queue)
      → Invariant
          (visited ++ current ∷ [])
          (enqueue (neighbors d current) seen queue).0
          (enqueue (neighbors d current) seen queue).1
  unfolding mem
  Invariant-round visited seen queue current i =
      let shift = append_assoc visited (current ∷ []) queue in
      let (same, distinct) =
        enqueue-Same (neighbors d current) seen (visited ++ current ∷ []) queue
          (subst (Same seen) (sym shift) i.same) (subst Distinct (sym shift) i.distinct) in
      let grown = mem-enqueue (neighbors d current) seen queue in
      let known = i.same current ∙ mem-append current visited (current ∷ queue) in
      record {
        same = same;
        distinct = distinct;
        reached = λ b m. elim (Bool-cases (mem b seen)) [
          | inl e ↦ i.reached b e
          | inr e ↦
              step (i.reached current (ground (arith, eq_iff current current)))
                (ground (arith, grown b))
        ];
        origin = ground (arith, grown start, i.origin);
        closed = λ a b m edge. elim (Bool-cases (mem a visited)) [
          | inl e ↦ ground (arith, grown b, i.closed a b e edge)
          | inr e ↦
              let now : a ≡ current =
                ground (arith, mem-append a visited (current ∷ []), eq_iff a current) in
              ground (arith, grown b, subst (λ x. mem b (neighbors d x) ≡ true) now edge)
        ];
      }

  -- Enough fuel: the addresses visited and queued are different and among the start and the targets.
  bfs_loop_ends :
      (fuel : ℕ) (visited seen queue : List String)
      → length visited + fuel ≡ suc (length (all_targets d))
      → Invariant visited seen queue
      → (final : List String) × Invariant (bfs_loop d fuel visited seen queue) final []
  unfolding bfs_loop
  bfs_loop_ends zero visited seen [] fueled i = (seen, i)
  bfs_loop_ends zero visited seen (q ∷ queue) fueled i = absurd (
      omega (
        arith,
        fueled,
        length-append visited (q ∷ queue),
        length-Within (visited ++ q ∷ queue) (start ∷ all_targets d) i.distinct
            (λ a m. Reach-listed d start a (i.reached a (i.same a ∙ m))),
      ))
  bfs_loop_ends (suc fuel) visited seen [] fueled i = (seen, i)
  bfs_loop_ends (suc fuel) visited seen (current ∷ queue) fueled i =
      bfs_loop_ends fuel (visited ++ current ∷ []) _ _
        (omega (arith, length-append visited (current ∷ [])))
        (Invariant-round visited seen queue current i)

  pub Invariant-start : Invariant [] (start ∷ []) (start ∷ [])
  unfolding mem
  Invariant-start = record {
    same = λ a. refl;
    distinct = (refl, tt);
    reached = λ b m.
        let now : start ≡ b = ground (arith, eq_iff b start) in subst (Reach d start) now here;
    origin = ground (arith, eq_iff start start);
    closed = λ a b m. cc;
  }

-- From a start whose lower case is a node, the breadth-first search returns exactly the addresses
-- that the edges of the graph reach from it, each once, and it ends; an address has the edges of
-- its lower case.
pub bfs-Reach :
    (g : ProtocolGraph) (start : String)
    → mem (lower start) (addresses g.nodes) ≡ true
    → Distinct (bfs g start)
      × ((b : String) → (mem b (bfs g start) ≡ true) ↔ Reach g.adjacency_map (lower start) b)
unfolding bfs
bfs-Reach g start known = rw known (
    let d = g.adjacency_map in
    let (final, i) =
      bfs_loop_ends d (lower start) (suc (length (all_targets d))) [] _ _ (omega arith)
        (Invariant-start d (lower start)) in
    let found =
      bfs_loop d (suc (length (all_targets d))) [] (lower start ∷ []) (lower start ∷ []) in
    let same : (a : String) → mem a final ≡ mem a found =
      subst (Same final) (append-nil found) i.same in
    (
      subst Distinct (append-nil found) i.distinct,
      λ b. (
        λ m. i.reached b (same b ∙ m),
        Reach-closed d (lower start) found (sym (same (lower start)) ∙ i.origin)
            (λ a c m edge. sym (same c) ∙ i.closed a c m edge) b,
      ),
    ))
