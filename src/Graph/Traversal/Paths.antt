-- ===== src/Graph/Traversal/Paths.antt =====
-- The paths of `shortest_path` in protocol_graph/traversal.py, and its queue beside that of the
-- breadth-first search.
use chain_sentinel.Base.{
  ℕ, zero, suc, ◌+◌, String, ◌≡◌, refl, sym, ap, ◌∙◌, subst, ◌⊎◌, inl, inr, true, false, Option,
  none, some, List, [], ◌∷◌, ◌++◌, map, arith, ◌==◌, eq_iff, Bool-cases, length, length-append, All,
  All-append, mem, add, mem-append, mem-add, Within, length-Within, mem-append, length-append,
  All-append,
}
use chain_sentinel.Graph.Models.{AdjacencyMap}
use chain_sentinel.Graph.Traversal.{
  neighbors, all_targets, enqueue, PathStep, found, searching, path_neighbors, path_loop,
}
use chain_sentinel.Graph.Traversal.Reach.{Reach, Reach-closed, Reach-listed}
use chain_sentinel.Graph.Traversal.Bfs.{Invariant, Invariant-round}
use chain_sentinel.Graph.Traversal.Chains.{IsChain, IsChain-snoc}

abbrev pub StartsAt : String → List String → Type 0
StartsAt a [] = ⊥
StartsAt a (x ∷ xs) = x ≡ a

-- A chain of edges between two addresses.
pub record IsPath (d : AdjacencyMap) (start end : String) (p : List String) : Type 0 where
  pub before : List String
  pub ends : p ≡ before ++ end ∷ []
  pub chain : IsChain d p
  pub starts : StartsAt start p

StartsAt-append : (a : String) (p q : List String) → StartsAt a p → StartsAt a (p ++ q)
StartsAt-append a [] q h = absurd h
StartsAt-append a (x ∷ p) q h = h

IsPath-snoc :
    (d : AdjacencyMap) (start a b : String) (p : List String)
    → IsPath d start a p
    → mem b (neighbors d a) ≡ true
    → IsPath d start b (p ++ b ∷ [])
IsPath-snoc d start a b p h edge = record {
  before = p;
  ends = refl;
  chain =
      subst (λ r. IsChain d (r ++ b ∷ [])) (sym h.ends)
        (IsChain-snoc d h.before a b (subst (IsChain d) h.ends h.chain) edge);
  starts = StartsAt-append start p (b ∷ []) h.starts;
}

abbrev pub queued : List (String × List String) → List String
queued = map (λ i. i.0)

-- What a search from one address to another answers: a chain of edges that joins them, or none, and
-- then the second is not reachable.
abbrev pub Joins : AdjacencyMap → String → String → Option (List String) → Type 0
Joins d start end (some p) = IsPath d start end p
Joins d start end none = ¬ Reach d start end

queued-snoc :
    (queue : List (String × List String)) (n : String) (p : List String)
    → queued (queue ++ (n, p) ∷ []) ≡ (queued queue ++ n ∷ [])
queued-snoc [] n p = refl
queued-snoc (x ∷ queue) n p = ap (λ q. x.0 ∷ q) (queued-snoc queue n p)

module _ (d : AdjacencyMap) (start end : String) where
  abbrev pub AllPaths : List (String × List String) → Type 0
  AllPaths queue = All (λ i. IsPath d start i.0 i.1) queue

  -- What a round leads to: a path, or what the breadth-first search has, and no end in sight.
  pub record Onward (reached names seen : List String) (queue : List (String × List String))
      : Type 0 where
    pub seen_same : seen ≡ reached
    pub queue_same : queued queue ≡ names
    pub paths : AllPaths queue
    pub unseen : mem end seen ≡ false

  abbrev pub RoundFacts : List String → List String → PathStep → Type 0
  RoundFacts reached names s =
      ((p : List String) × (s ≡ found p) × IsPath d start end p)
      ⊎ ((seen : List String) × (queue : List (String × List String)) × (s ≡ searching seen queue)
          × Onward reached names seen queue)

  pub path_neighbors_lem :
      (current : String) (path : List String)
      → IsPath d start current path
      → (ns seen : List String) (queue : List (String × List String)) (names : List String)
      → queued queue ≡ names
      → Within ns (neighbors d current)
      → AllPaths queue
      → mem end seen ≡ false
      → RoundFacts
          (enqueue ns seen names).0
          (enqueue ns seen names).1
          (path_neighbors end path ns seen queue)
  unfolding path_neighbors enqueue mem
  path_neighbors_lem current path h [] seen queue names same edges paths unseen = inr (
    seen,
    queue,
    refl,
    record { seen_same = refl; queue_same = same; paths = paths; unseen = unseen },
  )
  path_neighbors_lem current path h (n ∷ ns) seen queue names same edges paths unseen =
      let edge = edges n (ground (arith, eq_iff n n)) in
      let rest : Within ns (neighbors d current) = λ a m. edges a (ground arith) in
      let longer = IsPath-snoc d start current n path h edge in
      elim (Bool-cases (mem n seen)) [
        | inl e ↦
            rw (e, path_neighbors)
              (path_neighbors_lem current path h ns seen queue names same rest paths unseen)
        | inr e ↦ elim (Bool-cases (n == end)) [
          | inl last ↦
              let now : n ≡ end = ground (arith, eq_iff n end) in
              rw (e, last, path_neighbors)
                (inl
                  (path ++ n ∷ [], refl, subst (λ x. IsPath d start x (path ++ n ∷ [])) now longer))
          | inr other ↦
              rw (e, other, path_neighbors)
                (path_neighbors_lem current path h ns (add n seen)
                  (queue ++ (n, path ++ n ∷ []) ∷ []) (names ++ n ∷ [])
                  (queued-snoc queue n (path ++ n ∷ []) ∙ ap (λ q. q ++ n ∷ []) same) rest
                  (All-append _ queue ((n, path ++ n ∷ []) ∷ []) paths (longer, tt))
                  (ground (arith, mem-add end n seen, eq_iff n end, eq_iff end n)))
        ]
      ]

  unreached :
      (visited seen : List String)
      → Invariant d start visited seen []
      → mem end seen ≡ false
      → ¬ Reach d start end
  unfolding mem
  unreached visited seen i unseen r =
      let known =
        Reach-closed d start seen i.origin
          (λ a b m edge. i.closed a b (ground (arith, i.same a, mem-append a visited [])) edge) end
          r in
      cc

  pub path_loop_lem :
      (fuel : ℕ) (visited seen names : List String) (queue : List (String × List String))
      → queued queue ≡ names
      → length visited + fuel ≡ suc (length (all_targets d))
      → Invariant d start visited seen names
      → AllPaths queue
      → mem end seen ≡ false
      → Joins d start end (path_loop d end fuel seen queue)
  unfolding path_loop
  path_loop_lem zero visited seen names [] same fueled i paths unseen =
      unreached visited seen (subst (Invariant d start visited seen) (sym same) i) unseen
  path_loop_lem zero visited seen names ((q, p) ∷ queue) same fueled i paths unseen = absurd (
      omega (
        arith,
        fueled,
        ap length same,
        length-append visited names,
        length-Within (visited ++ names) (start ∷ all_targets d) i.distinct
            (λ a m. Reach-listed d start a (i.reached a (i.same a ∙ m))),
      ))
  path_loop_lem (suc fuel) visited seen names [] same fueled i paths unseen =
      unreached visited seen (subst (Invariant d start visited seen) (sym same) i) unseen
  path_loop_lem (suc fuel) visited seen names ((current, path) ∷ queue) same fueled i paths unseen =
      let ns = neighbors d current in
      let next =
        Invariant-round d start visited seen (queued queue) current
          (subst (Invariant d start visited seen) (sym same) i) in
      elim (path_neighbors_lem current path paths.0 ns seen queue (queued queue) refl (λ a m. m)
        paths.1 unseen) [
          | inl (p, e, h) ↦ rw (e, Joins, path_loop) h
          | inr (seen', queue', e, on) ↦
              rw (e, Joins, path_loop)
                (path_loop_lem fuel (visited ++ current ∷ []) seen'
                  (enqueue ns seen (queued queue)).1 queue' on.queue_same
                  (omega (arith, fueled, length-append visited (current ∷ [])))
                  (subst
                    (λ x.
                      Invariant d start (visited ++ current ∷ []) x
                        (enqueue ns seen (queued queue)).1)
                    (sym on.seen_same) next)
                  on.paths on.unseen)
        ]
