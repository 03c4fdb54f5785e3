-- ===== src/Graph/Traversal/Reach.antt =====
-- Reachability over an adjacency map.
use chain_sentinel.Base.{
  ◌≤◌, String, ◌≡◌, true, List, [], ◌∷◌, arith, eq_iff, length, length-append, lower, mem,
  mem-append, get, Within, mem-append, length-append,
}
use chain_sentinel.Graph.Models.{AdjacencyMap}
use chain_sentinel.Graph.Build.{entry}
use chain_sentinel.Graph.Traversal.{neighbors, all_targets}

-- The addresses that the edges from an address lead to. The adjacency map is asked for the lower
-- case of an address, so that the edges from `0xa` count as edges from `0xA` too.
abbrev pub edges_of : AdjacencyMap → String → List String
edges_of d address = entry d (lower address)

-- The walks from `start`.
pub data Reach (d : AdjacencyMap) (start : String) : String → Type 0 where
  here : Reach d start start
  step : {a b : String} → Reach d start a → mem b (edges_of d a) ≡ true → Reach d start b

module _ (d : AdjacencyMap) where
  pub Reach-closed :
      (start : String) (found : List String)
      → mem start found ≡ true
      → ((a b : String) → mem a found ≡ true → mem b (neighbors d a) ≡ true → mem b found ≡ true)
      → (b : String) → Reach d start b
      → mem b found ≡ true
  Reach-closed start found first closed b here = first
  Reach-closed start found first closed b (step {a} r edge) =
      closed a b (Reach-closed start found first closed a r) edge

pub entry-Within : (d : AdjacencyMap) (a : String) → Within (entry d a) (all_targets d)
unfolding get mem
entry-Within [] a b m = m
entry-Within ((k, ts) ∷ d) a b m =
    ground (arith, mem-append b ts (all_targets d), entry-Within d a b)

pub length-entry : (d : AdjacencyMap) (a : String) → length (entry d a) ≤ length (all_targets d)
unfolding get
length-entry [] a = omega arith
length-entry ((k, ts) ∷ d) a = ground (arith, length-append ts (all_targets d), length-entry d a)

pub neighbors-Within : (d : AdjacencyMap) (a : String) → Within (neighbors d a) (all_targets d)
neighbors-Within d a = entry-Within d (lower a)

-- What is reached is the start or a target.
pub Reach-listed :
    (d : AdjacencyMap) (start b : String) → Reach d start b → mem b (start ∷ all_targets d) ≡ true
unfolding mem
Reach-listed d start b r =
    Reach-closed d start (start ∷ all_targets d) (ground (arith, eq_iff start start))
      (λ a c m edge. ground (arith, neighbors-Within d a c edge)) b r

abbrev pub AllReach : (d : AdjacencyMap) (start : String) → List String → Type 0
AllReach d start xs = (b : String) → mem b xs ≡ true → Reach d start b
