-- ===== src/Graph/Traversal/Cycles.antt =====
-- The cycle search of protocol_graph/traversal.py, and the walks that return.
use chain_sentinel.Base.{
  suc, String, ◌≡◌, refl, sym, ap, ◌∙◌, subst, ◌↔◌, inl, inr, true, List, [], ◌∷◌, arith, ◌==◌,
  eq_iff, Bool-cases, length, All, lower, sort_by, length-sort_by, sorted, mem, mem-sorted, get,
  All-sort_by, texts_le, Within, length-sort_by, lower-lower,
}
use chain_sentinel.Graph.Models.{AdjacencyMap, ProtocolGraph, addresses}
use chain_sentinel.Graph.Build.{entry}
use chain_sentinel.Graph.Traversal.{neighbors, all_targets, Search, each, visit_root, find_cycles}
use chain_sentinel.Graph.Traversal.Reach.{edges_of}
use chain_sentinel.Graph.Traversal.Walks.{Walks, one, more}
use chain_sentinel.Graph.Traversal.Chains.{
  IsCycle, IsCycle-Walks, IsOrdered-acyclic, IsOrdered-closed, Walks-stay,
}
use chain_sentinel.Graph.Traversal.Visits.{Invariant, Step, Step-trans, visit-Contract}
use chain_sentinel.Scheduler.Incoming.{has_edge}
use chain_sentinel.Scheduler.Run.Start.{HasSources}

module _ (d : AdjacencyMap) where
  -- The loop over the nodes, from an empty path.
  roots-Step :
      (ns : List String) (s : Search)
      → Invariant d s
      → s.path ≡ []
      → let t = each (visit_root d (suc (length (all_targets d)))) ns s in
        Step d s t × Within ns t.visited
  unfolding visit_root mem
  roots-Step [] s i at_start =
      (record { path = refl; keeps = λ a m. m; cycles = λ e. e; invariant = i }, λ a m. cc)
  roots-Step (n ∷ ns) s i at_start =
      let fuel = suc (length (all_targets d)) in
      let t = visit_root d fuel n s in
      let first : Step d s t × (mem n t.visited ≡ true) = elim (Bool-cases (mem n s.visited)) [
        | inl old ↦
            rw (old, visit_root)
              (record { path = refl; keeps = λ a m. m; cycles = λ e. e; invariant = i }, old)
        | inr new ↦
            rw (new, visit_root) (visit-Contract d fuel [] (omega arith) n s i at_start new tt)
      ] in
      let (f, has) = first in
      let (g, others) = roots-Step ns t f.invariant (f.path ∙ at_start) in
      (
        Step-trans d s t _ f g,
        λ a m. elim (Bool-cases (a == n)) [
          | inl e ↦
              let now : n ≡ a = ground (arith, eq_iff a n) in
              g.keeps a (subst (λ x. mem x t.visited ≡ true) now has)
          | inr e ↦ others a (ground arith)
        ],
      )

has_edge-of_entry :
    (d : AdjacencyMap) (a b : String) → mem b (entry d a) ≡ true → has_edge d a b ≡ true
unfolding has_edge mem get
has_edge-of_entry [] a b m = cc
has_edge-of_entry ((k, ts) ∷ d) a b m = ground (arith, has_edge-of_entry d a b)

-- A walk may as well start from the lower case.
Walks-lower :
    (d : AdjacencyMap) (a b : String) → Walks (edges_of d) a b → Walks (edges_of d) (lower a) b
Walks-lower d a b (one m) = one (subst (λ x. mem b (entry d x) ≡ true) (sym (lower-lower a)) m)
Walks-lower d a b (more {a = c} w m) = more (Walks-lower d a c w) m

Walks-source :
    (d : AdjacencyMap) (a b : String)
    → Walks (edges_of d) a b
    → (c : String) × (mem c (neighbors d a) ≡ true)
Walks-source d a b (one {b = c} m) = (c, m)
Walks-source d a b (more {a = c} w m) = Walks-source d a c w

nil-sort_by : (cs : List (List String)) → sort_by texts_le cs ≡ [] → cs ≡ []
nil-sort_by [] e = refl
nil-sort_by (c ∷ cs) e = absurd (omega (arith, length-sort_by texts_le (c ∷ cs), ap length e))

none_found :
    (d : AdjacencyMap) (cs : List (List String))
    → All (IsCycle d) cs
    → ((a : String) → ¬ Walks (edges_of d) a a)
    → sort_by texts_le cs ≡ []
unfolding sort_by
none_found d [] h acyclic = refl
none_found d (c ∷ cs) h acyclic = let (x, w) = IsCycle-Walks d c h.0 in absurd (acyclic x w)

-- Where every edge starts at a node, and an address has the edges of its lower case: each cycle
-- that is reported is a chain of edges back to its start, and no cycle is reported exactly if no
-- walk of the graph returns to its start.
pub find_cycles-exact :
    (g : ProtocolGraph)
    → HasSources g
    → All (IsCycle g.adjacency_map) (find_cycles g)
      × ((find_cycles g ≡ []) ↔ ((a : String) → ¬ Walks (edges_of g.adjacency_map) a a))
unfolding find_cycles mem
find_cycles-exact g sources =
    let d = g.adjacency_map in
    let blank : Search = record { visited = []; stack = []; path = []; cycles = [] } in
    let fuel = suc (length (all_targets d)) in
    let (f, visited) =
      roots-Step d (sorted (addresses g.nodes)) blank
        (record {
          same = λ a. refl;
          known = λ a m. m;
          distinct = tt;
          genuine = tt;
          done = λ e. ([], tt, λ a. refl);
        })
        refl in
    let t = each (visit_root d fuel) (sorted (addresses g.nodes)) blank in
    (
      All-sort_by (IsCycle d) texts_le t.cycles f.invariant.genuine,
      (
        λ e a w.
            let (c, m) = Walks-source d a a w in
            let low = lower a in
            let low_node = sources low c (has_edge-of_entry d low c m) in
            let low_seen = visited low (mem-sorted low (addresses g.nodes) ∙ low_node) in
            let (order, ordered, exact) = f.invariant.done (nil-sort_by t.cycles e) in
            let done : mem low order ≡ true =
              exact low ∙ ground (arith, low_seen, ap (mem low) f.path) in
            let a_done =
              Walks-stay d order (IsOrdered-closed d order ordered) low a
                (λ b edge. IsOrdered-closed d order ordered low b done edge)
                (Walks-lower d a a w) in
            IsOrdered-acyclic d order ordered a a_done w,
        λ acyclic. none_found d t.cycles f.invariant.genuine acyclic,
      ),
    )
