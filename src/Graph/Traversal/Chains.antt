-- ===== src/Graph/Traversal/Chains.antt =====
-- Chains of edges: the path of the cycle search, and the cycles that it reports.
use chain_sentinel.Base.{
  suc, ◌≤◌, String, ◌≡◌, refl, sym, ap, subst, inl, inr, true, false, List, [], ◌∷◌, ◌++◌, arith,
  ◌==◌, eq_iff, Bool-cases, length, mem, Distinct, Within, length-Within,
}
use chain_sentinel.Graph.Models.{AdjacencyMap}
use chain_sentinel.Graph.Traversal.{neighbors, all_targets, from_first, drop_last}
use chain_sentinel.Graph.Traversal.Reach.{edges_of, neighbors-Within}
use chain_sentinel.Graph.Traversal.Walks.{Walks, one, more}

abbrev pub IsChain : AdjacencyMap → List String → Type 0
IsChain d [] = Unit
IsChain d (x ∷ []) = Unit
IsChain d (x ∷ y ∷ xs) = (mem y (edges_of d x) ≡ true) × IsChain d (y ∷ xs)

-- A chain that ends where it starts, and has an edge.
abbrev pub IsCycle : AdjacencyMap → List String → Type 0
IsCycle d c =
    (x : String) × (xs : List String) × (c ≡ x ∷ (xs ++ x ∷ [])) × IsChain d (x ∷ (xs ++ x ∷ []))

pub drop_last-snoc : (p : List String) (n : String) → drop_last (p ++ n ∷ []) ≡ p
drop_last-snoc [] n = refl
drop_last-snoc (x ∷ []) n = refl
drop_last-snoc (x ∷ y ∷ p) n = ap (λ q. x ∷ q) (drop_last-snoc (y ∷ p) n)

module _ (d : AdjacencyMap) where
  pub IsChain-snoc :
      (p : List String) (n m : String)
      → IsChain d (p ++ n ∷ [])
      → mem m (neighbors d n) ≡ true
      → IsChain d ((p ++ n ∷ []) ++ m ∷ [])
  IsChain-snoc [] n m h edge = (edge, tt)
  IsChain-snoc (x ∷ []) n m h edge = (h.0, (edge, tt))
  IsChain-snoc (x ∷ y ∷ p) n m h edge = (h.0, IsChain-snoc (y ∷ p) n m h.1 edge)

  IsChain-rest : (x : String) (xs : List String) → IsChain d (x ∷ xs) → IsChain d xs
  IsChain-rest x [] h = tt
  IsChain-rest x (y ∷ xs) h = h.1

  -- Closing the path at an address that is on it makes a cycle.
  pub from_first-IsCycle :
      (p : List String) (m : String)
      → IsChain d (p ++ m ∷ [])
      → mem m p ≡ true
      → IsCycle d (from_first m p ++ m ∷ [])
  unfolding mem
  from_first-IsCycle [] m h on = cc
  from_first-IsCycle (x ∷ xs) m h on = elim (Bool-cases (x == m)) [
    | inl e ↦
        let now : x ≡ m = ground (arith, eq_iff x m) in
        rw e (
          subst (λ y. IsCycle d (x ∷ (xs ++ y ∷ []))) now
            (x, xs, refl, subst (λ y. IsChain d (x ∷ (xs ++ y ∷ []))) (sym now) h))
    | inr e ↦ rw e (
        from_first-IsCycle xs m (IsChain-rest x (xs ++ m ∷ []) h)
          (ground (arith, eq_iff m x, eq_iff x m)))
  ]

  IsChain-Within : (x : String) (xs : List String) → IsChain d (x ∷ xs) → Within xs (all_targets d)
  unfolding mem
  IsChain-Within x [] h a m = cc
  IsChain-Within x (y ∷ xs) h a m = elim (Bool-cases (a == y)) [
    | inl e ↦
        let now : y ≡ a = ground (arith, eq_iff a y) in
        subst (λ z. mem z (all_targets d) ≡ true) now (neighbors-Within d x y h.0)
    | inr e ↦ IsChain-Within y xs h.1 a (ground arith)
  ]

  -- A chain without repetition is at most as long as there are targets, and its start.
  pub length-IsChain :
      (xs : List String) → Distinct xs → IsChain d xs → length xs ≤ suc (length (all_targets d))
  unfolding mem
  length-IsChain [] distinct h = omega arith
  length-IsChain (x ∷ xs) distinct h =
      length-Within (x ∷ xs) (x ∷ all_targets d) distinct
        (λ a m. ground (arith, IsChain-Within x xs h a))

  IsChain-Walks :
      (x : String) (xs : List String) (z : String)
      → IsChain d (x ∷ (xs ++ z ∷ []))
      → (y : String) → Walks (edges_of d) y x
      → Walks (edges_of d) y z
  IsChain-Walks x [] z h y w = more w h.0
  IsChain-Walks x (y ∷ xs) z h s w = IsChain-Walks y xs z h.1 s (more w h.0)

  pub IsCycle-Walks : (c : List String) → IsCycle d c → (x : String) × Walks (edges_of d) x x
  IsCycle-Walks c (x, [], e, h) = (x, one h.0)
  IsCycle-Walks c (x, y ∷ xs, e, h) = (x, IsChain-Walks y xs x h.1 x (one h.0))

-- Every address comes before its neighbours, so no walk returns.
abbrev pub IsOrdered : AdjacencyMap → List String → Type 0
IsOrdered d [] = Unit
IsOrdered d (x ∷ xs) = Within (neighbors d x) xs × ((mem x xs ≡ false) × IsOrdered d xs)

module _ (d : AdjacencyMap) where
  pub IsOrdered-closed :
      (xs : List String)
      → IsOrdered d xs
      → (a b : String) → mem a xs ≡ true
      → mem b (neighbors d a) ≡ true
      → mem b xs ≡ true
  unfolding mem
  IsOrdered-closed [] h a b m edge = cc
  IsOrdered-closed (x ∷ xs) h a b m edge = elim (Bool-cases (a == x)) [
    | inl e ↦
        let now : a ≡ x = ground (arith, eq_iff a x) in
        ground (arith, h.0 b (subst (λ y. mem b (neighbors d y) ≡ true) now edge))
    | inr e ↦ ground (arith, IsOrdered-closed xs h.1.1 a b (ground arith) edge)
  ]

  pub Walks-stay :
      (xs : List String)
      → ((a b : String) → mem a xs ≡ true → mem b (neighbors d a) ≡ true → mem b xs ≡ true)
      → (a b : String) → Within (neighbors d a) xs
      → Walks (edges_of d) a b
      → mem b xs ≡ true
  Walks-stay xs closed a b first (one m) = first b m
  Walks-stay xs closed a b first (more {a = c} w m) =
      closed c b (Walks-stay xs closed a c first w) m

  pub IsOrdered-acyclic :
      (xs : List String)
      → IsOrdered d xs
      → (a : String) → mem a xs ≡ true
      → ¬ Walks (edges_of d) a a
  unfolding mem
  IsOrdered-acyclic [] h a m w = cc
  IsOrdered-acyclic (x ∷ xs) h a m w = elim (Bool-cases (a == x)) [
    | inl e ↦
        let now : a ≡ x = ground (arith, eq_iff a x) in
        let again =
          Walks-stay xs (IsOrdered-closed xs h.1.1) x x h.0
            (subst (λ y. Walks (edges_of d) y y) now w) in
        ground arith
    | inr e ↦ IsOrdered-acyclic xs h.1.1 a (ground arith) w
  ]
