-- ===== src/Graph/Traversal/Dfs.antt =====
-- The depth-first search of protocol_graph/traversal.py beside the breadth-first search.
use chain_sentinel.Base.{
  ℕ, zero, suc, ◌+◌, ◌≤◌, ◌<◌, String, ◌≡◌, refl, sym, ap, ◌∙◌, subst, ◌↔◌, inl, inr, true, false,
  ◌||◌, List, [], ◌∷◌, ◌++◌, arith, ◌==◌, eq_iff, Bool-cases, length, length-append, lower, mem,
  add, mem-add, Distinct, Distinct-snoc, Within, length-Within, length-append, add-new,
}
use chain_sentinel.Graph.Models.{AdjacencyMap, ProtocolGraph, addresses}
use chain_sentinel.Graph.Traversal.{neighbors, all_targets, Walk, each, walk, dfs, bfs}
use chain_sentinel.Graph.Traversal.Reach.{Reach, here, step, Reach-closed, Reach-listed, AllReach}
use chain_sentinel.Graph.Traversal.Bfs.{bfs-Reach}

module _ (d : AdjacencyMap) (start : String) where
  record Invariant (w : Walk) : Type 0 where
    pub same : w.visited ≡ w.seen
    pub distinct : Distinct w.seen
    pub reached : AllReach d start w.seen

  -- What a call or a loop does: nothing is forgotten, and what is new is closed under neighbours.
  record Grows (w v : Walk) : Type 0 where
    pub keeps : Within w.seen v.seen
    pub closed :
        (a b : String)
        → mem a v.seen ≡ true
        → mem a w.seen ≡ false
        → mem b (neighbors d a) ≡ true
        → mem b v.seen ≡ true
    pub longer : length w.seen ≤ length v.seen
    pub invariant : Invariant v

  Grows-refl : (w : Walk) → Invariant w → Grows w w
  Grows-refl w i = record {
    keeps = λ a m. m;
    closed = λ a b m n. cc;
    longer = omega arith;
    invariant = i;
  }

  Grows-trans : (w v u : Walk) → Grows w v → Grows v u → Grows w u
  Grows-trans w v u g h = record {
    keeps = λ a m. h.keeps a (g.keeps a m);
    closed = λ a b m n edge. elim (Bool-cases (mem a v.seen)) [
      | inl e ↦ h.keeps b (g.closed a b e n edge)
      | inr e ↦ h.closed a b m e edge
    ];
    longer = omega (arith, g.longer, h.longer);
    invariant = h.invariant;
  }

  -- The loop over the neighbours, where the call meets its contract.
  each-Grows :
      (call : String → Walk → Walk) (fueled : Walk → Type 0)
      → ((w v : Walk) → fueled w → length w.seen ≤ length v.seen → fueled v)
      → ((n : String) (w : Walk)
          → fueled w
          → Invariant w
          → Reach d start n
          → Grows w (call n w) × (mem n (call n w).seen ≡ true))
      → (ns : List String) (w : Walk) → fueled w
      → Invariant w
      → AllReach d start ns
      → Grows w (each call ns w) × Within ns (each call ns w).seen
  unfolding mem
  each-Grows call fueled more contract [] w f i reached = (Grows-refl w i, λ a m. cc)
  each-Grows call fueled more contract (n ∷ ns) w f i reached =
      let (g, has) = contract n w f i (reached n (ground (arith, eq_iff n n))) in
      let (h, all_there) =
        each-Grows call fueled more contract ns (call n w) (more w _ f g.longer) g.invariant
          (λ a m. reached a (ground arith)) in
      (
        Grows-trans w (call n w) _ g h,
        λ a m. elim (Bool-cases (a == n)) [
          | inl e ↦
              let now : n ≡ a = ground (arith, eq_iff a n) in
              h.keeps a (subst (λ x. mem x (call n w).seen ≡ true) now has)
          | inr e ↦ all_there a (ground arith)
        ],
      )

  -- Enough fuel: what a walk has seen is different, and among the start and the targets.
  abbrev Fueled : ℕ → Walk → Type 0
  Fueled fuel w = suc (length (all_targets d)) < fuel + suc (length w.seen)

  Invariant-enter :
      (n : String) (w : Walk)
      → Invariant w
      → Reach d start n
      → mem n w.seen ≡ false
      → Invariant (record { seen = add n w.seen; visited = w.visited ++ n ∷ [] })
  unfolding mem
  Invariant-enter n w i r new = record {
    same = add-new w.visited w.seen n new i.same;
    distinct =
        subst Distinct (add-new w.seen w.seen n new refl) (Distinct-snoc w.seen n i.distinct new);
    reached = λ b m. elim (Bool-cases (mem b w.seen)) [
      | inl e ↦ i.reached b e
      | inr e ↦
          let now : n ≡ b = ground (arith, eq_iff b n, mem-add b n w.seen) in
          subst (Reach d start) now r
    ];
  }

  walk-Grows :
      (fuel : ℕ) (n : String) (w : Walk)
      → Fueled fuel w
      → Invariant w
      → Reach d start n
      → Grows w (walk d fuel n w) × (mem n (walk d fuel n w).seen ≡ true)
  unfolding walk mem
  walk-Grows zero n w f i r = elim (Bool-cases (mem n w.seen)) [
    | inl e ↦ (Grows-refl w i, e)
    | inr e ↦ absurd (
        omega (
          arith,
          f,
          length-Within (n ∷ w.seen) (start ∷ all_targets d) (e, i.distinct)
              (λ a m. Reach-listed d start a (elim (Bool-cases (mem a w.seen)) [
                | inl old ↦ i.reached a old
                | inr new ↦
                    let now : n ≡ a = ground (arith, eq_iff a n) in subst (Reach d start) now r
              ])),
        ))
  ]
  walk-Grows (suc fuel) n w f i r = elim (Bool-cases (mem n w.seen)) [
    | inl e ↦ rw (e, walk) (Grows-refl w i, e)
    | inr e ↦
        let w' : Walk = record { seen = add n w.seen; visited = w.visited ++ n ∷ [] } in
        let grown_by : length w'.seen ≡ length w.seen + 1 =
          sym (ap length (add-new w.seen w.seen n e refl)) ∙ length-append w.seen (n ∷ []) in
        let grown : (a : String) → mem a w'.seen ≡ (mem a w.seen || a == n) =
          λ a. ground (arith, mem-add a n w.seen) in
        let (g, all_there) =
          each-Grows (walk d fuel) (Fueled fuel) (λ u v fu le. omega (arith, fu, le))
            (walk-Grows fuel) (neighbors d n) w' (omega (arith, f, grown_by))
            (Invariant-enter n w i r e) (λ b m. step r m) in
        rw (e, walk)
          (
            record {
              keeps = λ a m. g.keeps a (ground (arith, grown a));
              closed = λ a b m out edge. elim (Bool-cases (a == n)) [
                | inl here_now ↦
                    let now : a ≡ n = ground (arith, eq_iff a n) in
                    all_there b (subst (λ x. mem b (neighbors d x) ≡ true) now edge)
                | inr other ↦ g.closed a b m (ground (arith, grown a)) edge
              ];
              longer = omega (arith, g.longer, grown_by);
              invariant = g.invariant;
            },
            g.keeps n (ground (arith, grown n, eq_iff n n)),
          )
  ]

-- From a start whose lower case is a node, the depth-first search returns exactly the addresses
-- that the edges of the graph reach from it, each once, so the same as the breadth-first search,
-- and it ends; an address has the edges of its lower case.
pub dfs-bfs :
    (g : ProtocolGraph) (start : String)
    → mem (lower start) (addresses g.nodes) ≡ true
    → Distinct (dfs g start)
      × ((b : String) → (mem b (dfs g start) ≡ true) ↔ Reach g.adjacency_map (lower start) b)
      × ((b : String) → mem b (dfs g start) ≡ mem b (bfs g start))
unfolding dfs mem
dfs-bfs g start known =
    let d = g.adjacency_map in
    let origin = lower start in
    let blank : Walk = record { seen = []; visited = [] } in
    let empty : Invariant d origin blank = record {
      same = refl;
      distinct = tt;
      reached = λ b m. cc;
    } in
    let (grows, first) =
      walk-Grows d origin (suc (length (all_targets d))) origin blank (omega arith) empty here in
    let last = walk d (suc (length (all_targets d))) origin blank in
    let exact : (b : String) → (mem b last.seen ≡ true) ↔ Reach d origin b = λ b. (
      grows.invariant.reached b,
      Reach-closed d origin last.seen first (λ a c m edge. grows.closed a c m refl edge) b,
    ) in
    let (bfs_distinct, bfs_exact) = bfs-Reach g start known in
    rw (known, grows.invariant.same)
      (grows.invariant.distinct, exact, λ b. ground (arith, exact b, bfs_exact b))
