-- ===== src/Graph/Traversal/Collect.antt =====
-- Descendants and ancestors, and the walks between them.
use chain_sentinel.Base.{
  String, ◌≡◌, refl, sym, ap, ◌∙◌, subst, ◌↔◌, inl, inr, true, false, ◌&&◌, List, [], ◌∷◌, arith,
  ◌==◌, eq_iff, Bool-cases, All, lower, mem, get, keys, Distinct,
}
use chain_sentinel.Graph.Models.{AdjacencyMap, ProtocolGraph}
use chain_sentinel.Graph.Build.{entry}
use chain_sentinel.Graph.Traversal.{neighbors, all_targets, descendants, ancestors}
use chain_sentinel.Graph.Traversal.Walks.{Walks, one, more, Exact, collect_from-Exact}
use chain_sentinel.Graph.Traversal.Reach.{edges_of, entry-Within, length-entry, neighbors-Within}
use chain_sentinel.Scheduler.Incoming.{has_edge, build_incoming, mem-dependencies}

has_edge-absent :
    (d : AdjacencyMap) (a b : String) → mem a (keys d) ≡ false → has_edge d a b ≡ false
unfolding has_edge mem
has_edge-absent [] a b m = refl
has_edge-absent ((k, ts) ∷ d) a b m = ground (arith, has_edge-absent d a b, eq_iff a k, eq_iff k a)

pub has_edge-entry :
    (d : AdjacencyMap) (a b : String) → Distinct (keys d) → has_edge d a b ≡ mem b (entry d a)
unfolding has_edge mem get
has_edge-entry [] a b distinct = refl
has_edge-entry ((k, ts) ∷ d) a b distinct =
    ground (arith, has_edge-entry d a b, has_edge-absent d k b, eq_iff k a)

Walks-cons :
    (next : String → List String) (a b c : String)
    → mem b (next a) ≡ true
    → Walks next b c
    → Walks next a c
Walks-cons next a b c edge (one m) = more (one edge) m
Walks-cons next a b c edge (more {a = x} w m) = more (Walks-cons next a b x edge w) m

-- Walks turned round, where every step from an address in lower case can be.
Walks-reverse :
    (next back : String → List String)
    → ((x y : String)
        → lower x ≡ x
        → mem y (next x) ≡ true
        → (lower y ≡ y) × (mem x (back y) ≡ true))
    → (a b : String) → lower a ≡ a
    → Walks next a b
    → (lower b ≡ b) × Walks back b a
Walks-reverse next back turn a b low (one m) =
    let (low_b, edge) = turn a b low m in (low_b, one edge)
Walks-reverse next back turn a b low (more {a = x} w m) =
    let (low_x, rest) = Walks-reverse next back turn a x low w in
    let (low_b, edge) = turn x b low_x m in (low_b, Walks-cons back b x a edge rest)

-- The adjacency map has its keys and its targets in lower case.
abbrev pub IsLower : AdjacencyMap → Type 0
IsLower d = All (λ e. (lower e.0 ≡ e.0) × All (λ t. lower t ≡ t) e.1) d

All-mem : (P : String → Type 0) (xs : List String) → All P xs → (x : String) → mem x xs ≡ true → P x
unfolding mem
All-mem P [] h x m = cc
All-mem P (y ∷ xs) h x m = elim (Bool-cases (x == y)) [
  | inl e ↦ let now : y ≡ x = ground (arith, eq_iff x y) in subst P now h.0
  | inr e ↦ All-mem P xs h.1 x (ground arith)
]

IsLower-edge :
    (d : AdjacencyMap)
    → IsLower d
    → (a b : String) → has_edge d a b ≡ true
    → (lower a ≡ a) × (lower b ≡ b)
unfolding has_edge
IsLower-edge [] h a b m = cc
IsLower-edge ((k, ts) ∷ d) h a b m = elim (Bool-cases (k == a && mem b ts)) [
  | inl e ↦
      let now : k ≡ a = ground (arith, eq_iff k a) in
      (subst (λ x. lower x ≡ x) now h.0.0, All-mem (λ t. lower t ≡ t) ts h.0.1 b (ground arith))
  | inr e ↦ IsLower-edge d h.1 a b (ground arith)
]

-- In a graph whose adjacency map has each key once, with its keys and targets in lower case: the
-- descendants of an address `a` in lower case are exactly the ends of the walks of at least one
-- edge from `a`, and an address `b` in lower case is one of them exactly if `a` is an ancestor of
-- `b`.
pub descendants-ancestors :
    (g : ProtocolGraph) (a b : String)
    → Distinct (keys g.adjacency_map)
    → IsLower g.adjacency_map
    → lower a ≡ a
    → lower b ≡ b
    → ((mem b (descendants g a) ≡ true) ↔ Walks (edges_of g.adjacency_map) (lower a) b)
      × (mem b (descendants g a) ≡ mem a (ancestors g b))
unfolding descendants ancestors Exact
descendants-ancestors g a b distinct low low_a low_b =
    let d = g.adjacency_map in
    let e = build_incoming g in
    let down =
      collect_from-Exact (neighbors d) (all_targets d) (neighbors-Within d)
        (λ x. length-entry d (lower x)) (lower a) b in
    let up =
      collect_from-Exact (entry e) (all_targets e) (entry-Within e) (length-entry e) (lower b) a in
    let there =
      Walks-reverse (neighbors d) (entry e)
        (λ x y low_x m.
          let edge : has_edge d x y ≡ true =
            has_edge-entry d x y distinct ∙ ap (λ z. mem y (entry d z)) (sym low_x) ∙ m in
          ((IsLower-edge d low x y edge).1, mem-dependencies g x y ∙ edge))
        a b low_a in
    let back =
      Walks-reverse (entry e) (neighbors d)
        (λ x y low_x m.
          let edge : has_edge d y x ≡ true = sym (mem-dependencies g y x) ∙ m in
          let low_y = (IsLower-edge d low y x edge).0 in
          (low_y, ap (λ z. mem x (entry d z)) low_y ∙ sym (has_edge-entry d y x distinct) ∙ edge))
        b a low_b in
    (
      down,
      ground (
        arith,
        down,
        up,
        λ (w : Walks (neighbors d) (lower a) b).
            subst (λ z. Walks (entry e) z a) (sym low_b)
              (there (subst (λ z. Walks (neighbors d) z b) low_a w)).1,
        λ (w : Walks (entry e) (lower b) a).
            subst (λ z. Walks (neighbors d) z b) (sym low_a)
              (back (subst (λ z. Walks (entry e) z a) low_b w)).1,
      ),
    )
