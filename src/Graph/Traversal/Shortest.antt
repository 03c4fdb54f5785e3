-- ===== src/Graph/Traversal/Shortest.antt =====
-- What `shortest_path` of protocol_graph/traversal.py answers.
use chain_sentinel.Base.{
  ℕ, zero, suc, ◌≤◌, String, ◌≡◌, refl, subst, inl, inr, true, false, Option, none, some, List, [],
  ◌∷◌, arith, ◌==◌, eq_iff, Bool-cases, length, lower, mem,
}
use chain_sentinel.Graph.Models.{AdjacencyMap, ProtocolGraph}
use chain_sentinel.Graph.Traversal.{all_targets, path_loop, shortest_path}
use chain_sentinel.Graph.Traversal.Reach.{Reach}
use chain_sentinel.Graph.Traversal.Bfs.{Invariant-start}
use chain_sentinel.Graph.Traversal.Levels.{Steps, stay, Level, finds}
use chain_sentinel.Graph.Traversal.Paths.{IsPath, Joins, path_loop_lem}

alone : (d : AdjacencyMap) (a : String) → IsPath d a a (a ∷ [])
alone d a = record { before = []; ends = refl; chain = tt; starts = refl }

start_near :
    {d : AdjacencyMap} {start : String}
    → (k : ℕ) (b : String) → Steps d start k b
    → k ≤ 0
    → mem b (start ∷ []) ≡ true
unfolding mem
start_near zero b stay le = ground (arith, eq_iff b b)
start_near (suc k) b s le = absurd (omega (arith, le))

Level-start :
    (d : AdjacencyMap) (start end : String) → Level d start end 0 [] ((start, start ∷ []) ∷ []) []
Level-start d start end = record {
  near = λ k b s le. start_near k b s le;
  first = (refl, tt);
  second = tt;
}

-- The answer of a search: a chain of edges that joins two addresses, with at most as many edges as
-- any walk from one to the other, or none, and then no walk leads there.
abbrev pub IsShortest : AdjacencyMap → String → String → Option (List String) → Type 0
IsShortest d start end (some p) =
    IsPath d start end p × ((k : ℕ) → Steps d start k end → length p ≤ suc k)
IsShortest d start end none = ¬ Reach d start end

path_loop-IsShortest :
    (d : AdjacencyMap) (start end : String)
    → (start == end) ≡ false
    → (o : Option (List String))
    → path_loop d end (suc (length (all_targets d))) (start ∷ []) ((start, start ∷ []) ∷ []) ≡ o
    → Joins d start end o
    → IsShortest d start end o
unfolding mem
path_loop-IsShortest d start end other none e h = h
path_loop-IsShortest d start end other (some p) e h = (
  h,
  finds d start end (suc (length (all_targets d))) 0 [] (start ∷ []) ((start, start ∷ []) ∷ []) [] p
      (record {
        invariant = Invariant-start d start;
        paths = (alone d start, tt);
        unseen = ground (arith, eq_iff start end, eq_iff end start);
        answer = e;
      })
      (Level-start d start end),
)

-- Where an address has the edges of its lower case: the shortest-path search ends with a chain of
-- edges from the lower case of the source to that of the target that has at most as many edges as
-- any walk between them, or without an answer, and then no walk leads there.
pub shortest_path-IsShortest :
    (g : ProtocolGraph) (source target : String)
    → IsShortest g.adjacency_map (lower source) (lower target) (shortest_path g source target)
unfolding shortest_path mem
shortest_path-IsShortest g source target =
    let d = g.adjacency_map in
    let start = lower source in
    let end = lower target in
    elim (Bool-cases (start == end)) [
      | inl e ↦
          let now : start ≡ end = ground (arith, eq_iff start end) in
          rw (e, shortest_path)
            (subst (λ x. IsPath d start x (start ∷ [])) now (alone d start), λ k s. omega arith)
      | inr e ↦
          rw (e, shortest_path)
            (path_loop-IsShortest d start end e _ refl (
              path_loop_lem d start end (suc (length (all_targets d))) [] (start ∷ []) (start ∷ [])
                ((start, start ∷ []) ∷ []) refl (omega arith) (Invariant-start d start)
                (alone d start, tt) (ground (arith, eq_iff start end, eq_iff end start))))
    ]
