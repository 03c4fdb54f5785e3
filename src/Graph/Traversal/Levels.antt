-- ===== src/Graph/Traversal/Levels.antt =====
-- The numbers of edges of the paths in the queue of `shortest_path` in protocol_graph/traversal.py.
use chain_sentinel.Base.{
  ℕ, zero, suc, ◌≤◌, String, ◌≡◌, refl, sym, ap, ◌∙◌, subst, inl, inr, true, false, Option, none,
  some, List, [], ◌∷◌, ◌++◌, append-nil, append_assoc, arith, ◌==◌, ltb, ltb→lt, Bool-cases, length,
  length-append, All, All-append, mem, add, mem-append, append_assoc, append-nil, mem-append,
  length-append, All-append, ltb, ltb→lt,
}
use chain_sentinel.Graph.Models.{AdjacencyMap}
use chain_sentinel.Graph.Traversal.{
  neighbors, enqueue, PathStep, found, searching, path_neighbors, path_loop,
}
use chain_sentinel.Graph.Traversal.Reach.{edges_of}
use chain_sentinel.Graph.Traversal.Bfs.{Invariant, Invariant-round}
use chain_sentinel.Graph.Traversal.Paths.{AllPaths, queued, path_neighbors_lem}

-- The walks with their numbers of edges.
pub data Steps (d : AdjacencyMap) (start : String) : ℕ → String → Type 0 where
  stay : Steps d start 0 start
  go :
      {n : ℕ} {a b : String}
      → Steps d start n a
      → mem b (edges_of d a) ≡ true
      → Steps d start (suc n) b

-- What the queue is after a round from a path: the new paths have one edge more.
abbrev Grown : List String → List (String × List String) → PathStep → Type 0
Grown path queue (found p) = length p ≡ suc (length path)
Grown path queue (searching seen queue') =
    (extra : List (String × List String)) × (queue' ≡ (queue ++ extra))
    × All (λ i. length i.1 ≡ suc (length path)) extra

Grown-shift :
    (path : List String) (queue : List (String × List String)) (i : String × List String)
    → length i.1 ≡ suc (length path)
    → (s : PathStep) → Grown path (queue ++ i ∷ []) s
    → Grown path queue s
Grown-shift path queue i long (found p) h = h
Grown-shift path queue i long (searching seen queue') (extra, e, h) =
    (i ∷ extra, e ∙ append_assoc queue (i ∷ []) extra, (long, h))

path_neighbors-Grown :
    (end : String) (path ns seen : List String) (queue : List (String × List String))
    → Grown path queue (path_neighbors end path ns seen queue)
unfolding path_neighbors
path_neighbors-Grown end path [] seen queue = ([], sym (append-nil queue), tt)
path_neighbors-Grown end path (n ∷ ns) seen queue =
    let long : length (path ++ n ∷ []) ≡ suc (length path) =
      omega (arith, length-append path (n ∷ [])) in
    elim (Bool-cases (mem n seen)) [
      | inl e ↦ rw (e, Grown, path_neighbors) (path_neighbors-Grown end path ns seen queue)
      | inr e ↦ elim (Bool-cases (n == end)) [
        | inl last ↦ rw (e, last, Grown, path_neighbors) long
        | inr other ↦
            rw (e, other, Grown, path_neighbors)
              (Grown-shift path queue (n, path ++ n ∷ []) long
                (path_neighbors end path ns (add n seen) (queue ++ (n, path ++ n ∷ []) ∷ []))
                (path_neighbors-Grown end path ns (add n seen) (queue ++ (n, path ++ n ∷ []) ∷ [])))
      ]
    ]

queued-append : (xs ys : List (String × List String)) → queued (xs ++ ys) ≡ (queued xs ++ queued ys)
queued-append [] ys = refl
queued-append (x ∷ xs) ys = ap (λ q. x.0 ∷ q) (queued-append xs ys)

abbrev size_of : Option (List String) → ℕ
size_of none = 0
size_of (some p) = length p

module _ (d : AdjacencyMap) (start end : String) where
  -- A search that goes on and will answer with the path.
  pub record Searches (fuel : ℕ) (visited seen : List String) (queue : List (String × List String))
      (p : List String) : Type 0 where
    pub invariant : Invariant d start visited seen (queued queue)
    pub paths : AllPaths d start end queue
    pub unseen : mem end seen ≡ false
    pub answer : path_loop d end fuel seen queue ≡ some p

  -- The queue has paths with `l` edges, then paths with one more, and what is as near is visited or
  -- among the first.
  pub record Level (l : ℕ) (visited : List String) (now next : List (String × List String))
      : Type 0 where
    pub near :
        (k : ℕ) (b : String) → Steps d start k b → k ≤ l → mem b (visited ++ queued now) ≡ true
    pub first : All (λ i. length i.1 ≡ suc l) now
    pub second : All (λ i. length i.1 ≡ suc (suc l)) next

  nearer :
      (l : ℕ) (visited seen : List String) (next : List (String × List String))
      → Level l visited [] next
      → Invariant d start visited seen (queued next)
      → (k : ℕ) (b : String) → Steps d start k b
      → k ≤ suc l
      → mem b (visited ++ queued next) ≡ true
  unfolding mem
  nearer l visited seen next h i zero b stay le =
      let old = h.near 0 b stay (omega arith) in
      ground (arith, mem-append b visited (queued next), mem-append b visited [])
  nearer l visited seen next h i (suc k) b (go {n} {a} s edge) le =
      let old = h.near n a s (omega (arith, le)) in
      sym (i.same b) ∙ i.closed a b (ground (arith, mem-append a visited [])) edge

  Level-next :
      (l : ℕ) (visited seen : List String) (next : List (String × List String))
      → Level l visited [] next
      → Invariant d start visited seen (queued next)
      → Level (suc l) visited next []
  Level-next l visited seen next h i = record {
    near = nearer l visited seen next h i;
    first = h.second;
    second = tt;
  }

  -- What the shortest path is held against.
  abbrev pub Fewest : List String → Type 0
  Fewest p = (k : ℕ) → Steps d start k end → length p ≤ suc k

  abbrev pub Finds : ℕ → Type 0
  Finds fuel =
      (l : ℕ) (visited seen : List String) (now next : List (String × List String))
      (p : List String)
      → Searches fuel visited seen (now ++ next) p
      → Level l visited now next
      → Fewest p

  round :
      (fuel : ℕ)
      → Finds fuel
      → (l : ℕ) (visited seen : List String) (current : String) (path : List String)
        (now next : List (String × List String)) (p : List String)
      → Searches (suc fuel) visited seen (((current, path) ∷ now) ++ next) p
      → Level l visited ((current, path) ∷ now) next
      → Fewest p
  unfolding path_loop mem
  round fuel rest l visited seen current path now next p s h =
      let ns = neighbors d current in
      let queue = now ++ next in
      let later = Invariant-round d start visited seen (queued queue) current s.invariant in
      let shape = path_neighbors-Grown end path ns seen queue in
      elim (path_neighbors_lem d start end current path s.paths.0 ns seen queue (queued queue) refl
        (λ a m. m) s.paths.1 s.unseen) [
          | inl (q, e, ends) ↦
              let same : some q ≡ some p = sym (rw (e, path_loop) refl) ∙ s.answer in
              let long = subst (Grown path queue) e shape in
              let size : length p ≡ suc (suc l) = sym (ap size_of same) ∙ long ∙ ap suc h.first.0 in
              λ k walk. elim (Bool-cases (ltb l k)) [
                | inl further ↦ omega (arith, ltb→lt l k further, size)
                | inr within ↦
                    let known = h.near k end walk (ground arith) in
                    absurd (
                      ground (
                        arith,
                        known,
                        s.invariant.same end,
                        s.unseen,
                        mem-append end visited (current ∷ queued queue),
                        mem-append end visited (current ∷ queued now),
                        mem-append end (queued now) (queued next),
                        queued-append now next,
                      ))
              ]
          | inr (seen', queue', e, on) ↦
              let (extra, grown, long) = subst (Grown path queue) e shape in
              let further = grown ∙ append_assoc now next extra in
              let at : visited ++ queued ((current, path) ∷ now)
                  ≡ (visited ++ current ∷ []) ++ queued now =
                sym (append_assoc visited (current ∷ []) (queued now)) in
              rest l (visited ++ current ∷ []) seen' now (next ++ extra) p
                (subst (λ q. Searches fuel (visited ++ current ∷ []) seen' q p) further
                  (record {
                    invariant =
                        subst (Invariant d start (visited ++ current ∷ []) seen')
                          (sym on.queue_same)
                          (subst
                            (λ x.
                              Invariant d start (visited ++ current ∷ []) x
                                (enqueue ns seen (queued queue)).1)
                            (sym on.seen_same) later);
                    paths = on.paths;
                    unseen = on.unseen;
                    answer = sym (rw (e, path_loop) refl) ∙ s.answer;
                  }))
                (record {
                  near = λ k b m le. ap (mem b) (sym at) ∙ h.near k b m le;
                  first = h.first.1;
                  second =
                      All-append _ next extra h.second
                        (subst (λ n. All (λ i. length i.1 ≡ suc n) extra) h.first.0 long);
                })
        ]

  pub finds : (fuel : ℕ) → Finds fuel
  unfolding path_loop
  finds zero l visited seen now next p s h = absurd (let e : none ≡ some p = s.answer in cc)
  finds (suc fuel) l visited seen ((current, path) ∷ now) next p s h =
      round fuel (finds fuel) l visited seen current path now next p s h
  finds (suc fuel) l visited seen [] [] p s h = absurd (let e : none ≡ some p = s.answer in cc)
  finds (suc fuel) l visited seen [] ((current, path) ∷ next) p s h =
      round fuel (finds fuel) (suc l) visited seen current path next [] p
        (subst (λ q. Searches (suc fuel) visited seen ((current, path) ∷ q) p)
          (sym (append-nil next)) s)
        (Level-next l visited seen ((current, path) ∷ next) h s.invariant)
