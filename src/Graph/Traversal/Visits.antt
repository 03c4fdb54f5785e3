-- ===== src/Graph/Traversal/Visits.antt =====
-- A visit of the cycle search of protocol_graph/traversal.py: the path and the cycles so far.
use chain_sentinel.Base.{
  ℕ, zero, suc, ◌+◌, String, ◌≡◌, refl, sym, ap, ◌∙◌, subst, inl, inr, true, false, ◌&&◌, ◌||◌, not,
  List, [], ◌∷◌, ◌++◌, arith, ◌==◌, eq_iff, Bool-cases, length, filter, length-append, All,
  All-append, mem, mem-append, mem-add, Distinct, Distinct-snoc, Within, mem-append, length-append,
  All-append, filter,
}
use chain_sentinel.Graph.Models.{AdjacencyMap}
use chain_sentinel.Graph.Traversal.{
  drop_last, neighbors, all_targets, Search, each, enter, leave, visit_neighbor, visit,
}
use chain_sentinel.Graph.Traversal.Chains.{
  IsChain, IsCycle, IsOrdered, drop_last-snoc, IsChain-snoc, from_first-IsCycle, length-IsChain,
}

not_nil : (xs : List (List String)) (x : List String) → xs ++ x ∷ [] ≡ [] → ⊥
not_nil [] x e = cc
not_nil (y ∷ xs) x e = cc

module _ (d : AdjacencyMap) where
  -- While no cycle is found, the addresses that are done have an order.
  abbrev pub Done : Search → Type 0
  Done s =
      (order : List String) × IsOrdered d order
      × ((a : String) → mem a order ≡ (mem a s.visited && not (mem a s.path)))

  pub record Invariant (s : Search) : Type 0 where
    pub same : (a : String) → mem a s.stack ≡ mem a s.path
    pub known : Within s.path s.visited
    pub distinct : Distinct s.path
    pub genuine : All (IsCycle d) s.cycles
    pub done : s.cycles ≡ [] → Done s

  -- What a call and a loop leave as they find it.
  pub record Step (s t : Search) : Type 0 where
    pub path : t.path ≡ s.path
    pub keeps : Within s.visited t.visited
    pub cycles : t.cycles ≡ [] → s.cycles ≡ []
    pub invariant : Invariant t

  pub Step-trans : (s t u : Search) → Step s t → Step t u → Step s u
  Step-trans s t u f g = record {
    path = g.path ∙ f.path;
    keeps = λ a m. g.keeps a (f.keeps a m);
    cycles = λ e. f.cycles (g.cycles e);
    invariant = g.invariant;
  }

  -- What is known of a neighbour behind its round: it is visited, and done unless there is a cycle.
  abbrev pub Settled : Search → String → Type 0
  Settled s n = (mem n s.visited ≡ true) × (s.cycles ≡ [] → mem n s.path ≡ false)

  -- A call of `visit` on an address that is not visited, which prolongs the path.
  abbrev pub Contract : (String → Search → Search) → List String → Type 0
  Contract call path =
      (n : String) (s : Search)
      → Invariant s
      → s.path ≡ path
      → mem n s.visited ≡ false
      → IsChain d (path ++ n ∷ [])
      → Step s (call n s) × (mem n (call n s).visited ≡ true)

  Settled-Step : (s t : Search) (n : String) → Step s t → Settled s n → Settled t n
  Settled-Step s t n f h = (f.keeps n h.0, λ e. ap (mem n) f.path ∙ h.1 (f.cycles e))

  visit_neighbor-Step :
      (call : String → Search → Search) (p : List String) (source n : String)
      → Contract call (p ++ source ∷ [])
      → (s : Search) → Invariant s
      → s.path ≡ p ++ source ∷ []
      → IsChain d (p ++ source ∷ [])
      → mem n (neighbors d source) ≡ true
      → Step s (visit_neighbor call n s) × Settled (visit_neighbor call n s) n
  unfolding visit_neighbor
  visit_neighbor-Step call p source n contract s i at_path chain edge =
      let longer = IsChain-snoc d p source n chain edge in
      elim (Bool-cases (mem n s.visited)) [
        | inr new ↦
            let (f, has) = contract n s i at_path new longer in
            rw (new, visit_neighbor)
              (
                f,
                (
                  has,
                  λ e. ap (mem n) f.path ∙ elim (Bool-cases (mem n s.path)) [
                    | inl on ↦ absurd (ground (arith, i.known n on))
                    | inr off ↦ off
                  ],
                ),
              )
        | inl old ↦ elim (Bool-cases (mem n s.stack)) [
          | inl on ↦
              let found =
                from_first-IsCycle d s.path n
                  (subst (λ q. IsChain d (q ++ n ∷ [])) (sym at_path) longer)
                  (sym (i.same n) ∙ on) in
              rw (old, on, visit_neighbor)
                (
                  record {
                    path = refl;
                    keeps = λ a m. m;
                    cycles = λ e. absurd (not_nil s.cycles _ e);
                    invariant = record {
                      same = i.same;
                      known = i.known;
                      distinct = i.distinct;
                      genuine = All-append (IsCycle d) s.cycles _ i.genuine (found, tt);
                      done = λ e. absurd (not_nil s.cycles _ e);
                    };
                  },
                  (old, λ e. absurd (not_nil s.cycles _ e)),
                )
          | inr off ↦
              rw (old, off, visit_neighbor)
                (
                  record { path = refl; keeps = λ a m. m; cycles = λ e. e; invariant = i },
                  (old, λ e. sym (i.same n) ∙ off),
                )
        ]
      ]

  each-Step :
      (call : String → Search → Search) (p : List String) (source : String)
      → Contract call (p ++ source ∷ [])
      → IsChain d (p ++ source ∷ [])
      → (ns : List String) → Within ns (neighbors d source)
      → (s : Search) → Invariant s
      → s.path ≡ p ++ source ∷ []
      → Step s (each (visit_neighbor call) ns s)
        × ((n : String) → mem n ns ≡ true → Settled (each (visit_neighbor call) ns s) n)
  unfolding mem
  each-Step call p source contract chain [] within s i at_path =
      (record { path = refl; keeps = λ a m. m; cycles = λ e. e; invariant = i }, λ n m. cc)
  each-Step call p source contract chain (n ∷ ns) within s i at_path =
      let (f, settled) =
        visit_neighbor-Step call p source n contract s i at_path chain
          (within n (ground (arith, eq_iff n n))) in
      let t = visit_neighbor call n s in
      let (g, others) =
        each-Step call p source contract chain ns (λ a m. within a (ground arith)) t f.invariant
          (f.path ∙ at_path) in
      (
        Step-trans s t _ f g,
        λ a m. elim (Bool-cases (a == n)) [
          | inl e ↦
              let now : n ≡ a = ground (arith, eq_iff a n) in
              subst (Settled (each (visit_neighbor call) ns t)) now (Settled-Step t _ n g settled)
          | inr e ↦ others a (ground arith)
        ],
      )

  Invariant-enter :
      (n : String) (s : Search) → Invariant s → mem n s.visited ≡ false → Invariant (enter n s)
  unfolding mem
  Invariant-enter n s i new =
      let off : mem n s.path ≡ false = ground (arith, i.known n) in
      let grown : (a : String) → mem a (s.path ++ n ∷ []) ≡ (mem a s.path || a == n) =
        λ a. ground (arith, mem-append a s.path (n ∷ [])) in
      record {
        same = λ a. ground (arith, mem-add a n s.stack, grown a, i.same a);
        known = λ a m. ground (arith, mem-add a n s.visited, grown a, i.known a);
        distinct = Distinct-snoc s.path n i.distinct off;
        genuine = i.genuine;
        done = λ e.
            let (order, ordered, exact) = i.done e in
            (
              order,
              ordered,
              λ a. ground (arith, exact a, mem-add a n s.visited, grown a, eq_iff a n),
            );
      }

  mem-filter-not :
      (a n : String) (xs : List String)
      → mem a (filter (λ x. not (x == n)) xs) ≡ (mem a xs && not (a == n))
  unfolding mem
  mem-filter-not a n [] = refl
  mem-filter-not a n (x ∷ xs) =
      ground (arith, mem-filter-not a n xs, eq_iff a x, eq_iff x n, eq_iff a n)

  -- Leaving an address whose neighbours are settled.
  Invariant-leave :
      (n : String) (p : List String) (t : Search)
      → Invariant t
      → t.path ≡ p ++ n ∷ []
      → mem n t.visited ≡ true
      → mem n p ≡ false
      → Distinct p
      → ((b : String) → mem b (neighbors d n) ≡ true → Settled t b)
      → Invariant (leave n t) × ((leave n t).path ≡ p)
  unfolding mem
  Invariant-leave n p t i at_path has off distinct settled =
      let back : (leave n t).path ≡ p = ap drop_last at_path ∙ drop_last-snoc p n in
      let grown : (a : String) → mem a t.path ≡ (mem a p || a == n) =
        λ a. ap (mem a) at_path ∙ ground (arith, mem-append a p (n ∷ [])) in
      let on : mem n t.path ≡ true = ground (arith, grown n, eq_iff n n) in
      (
        record {
          same = λ a.
              mem-filter-not a n t.stack
              ∙ ground (arith, i.same a, grown a, eq_iff a n)
              ∙ sym (ap (mem a) back);
          known = λ a m. i.known a (ground (arith, grown a, ap (mem a) back));
          distinct = subst Distinct (sym back) distinct;
          genuine = i.genuine;
          done = λ e.
              let (order, ordered, exact) = i.done e in
              (
                n ∷ order,
                (
                  λ b m. ground (arith, exact b, (settled b m).0, (settled b m).1 e),
                  (ground (arith, exact n), ordered),
                ),
                λ a. ground (arith, exact a, grown a, eq_iff a n, ap (mem a) back),
              );
        },
        back,
      )

  pub visit-Contract :
      (fuel : ℕ) (p : List String)
      → length p + fuel ≡ suc (length (all_targets d))
      → Contract (visit d fuel) p
  unfolding visit
  visit-Contract zero p f n s i at_path new chain =
      let off : mem n p ≡ false = sym (ap (mem n) at_path) ∙ ground (arith, i.known n) in
      absurd (
        omega (
          arith,
          f,
          length-append p (n ∷ []),
          length-IsChain d (p ++ n ∷ []) (Distinct-snoc p n (subst Distinct at_path i.distinct) off)
              chain,
        ))
  visit-Contract (suc fuel) p f n s i at_path new chain =
      let off : mem n p ≡ false = sym (ap (mem n) at_path) ∙ ground (arith, i.known n) in
      let s1 = enter n s in
      let at_next : s1.path ≡ p ++ n ∷ [] = ap (λ q. q ++ n ∷ []) at_path in
      let (g, settled) =
        each-Step (visit d fuel) p n
          (visit-Contract fuel (p ++ n ∷ []) (omega (arith, f, length-append p (n ∷ [])))) chain
          (neighbors d n) (λ a m. m) s1 (Invariant-enter n s i new) at_next in
      let t = each (visit_neighbor (visit d fuel)) (neighbors d n) s1 in
      let has = g.keeps n (mem-add n n s.visited ∙ ground (arith, eq_iff n n)) in
      let (h, back) =
        Invariant-leave n p t g.invariant (g.path ∙ at_next) has off
          (subst Distinct at_path i.distinct) settled in
      (
        record {
          path = back ∙ sym at_path;
          keeps = λ a m. g.keeps a (mem-add a n s.visited ∙ ground arith);
          cycles = λ e. g.cycles e;
          invariant = h;
        },
        has,
      )
