-- ===== src/Graph/Validator/WellFormed.antt =====
-- What the validator accepts.
use chain_sentinel.Base.{
  suc, ◌+◌, ◌≤◌, String, ◌≡◌, refl, sym, ap, ◌∙◌, ◌↔◌, inl, inr, Bool, true, false, ◌&&◌, ◌||◌, not,
  List, [], ◌∷◌, ◌++◌, arith, ◌==◌, eq_iff, Bool-cases, length, any, length-append, All, mem, add,
  mem-append, mem-add, Distinct, All-map, mem-append, length-append, add-new,
}
use chain_sentinel.Graph.Models.{
  ProtocolEdge, ProtocolNode, ProtocolGraph, GraphValidationIssue, addresses,
}
use chain_sentinel.Graph.Validator.{
  set_of, issue_if, edge_issues, all_edge_issues, integrity_issues, traversal_issues, is_fatal,
  validate,
}

-- The ends of an edge are known and different.
abbrev pub Joins : List String → String → String → Type 0
Joins known s t = (mem s known ≡ true) × (mem t known ≡ true) × ((s == t) ≡ false)

pub record IsWellFormed (g : ProtocolGraph) : Type 0 where
  pub root : mem g.root_node (addresses g.nodes) ≡ true
  pub distinct : Distinct (addresses g.nodes)
  pub edges : All (λ e. Joins (addresses g.nodes) e.source e.target) g.edges

pub mem-set_of : (xs s : List String) (a : String) → mem a (set_of xs s) ≡ (mem a xs || mem a s)
unfolding set_of mem
mem-set_of [] s a = refl
mem-set_of (x ∷ xs) s a = ground (arith, mem-set_of xs (add x s) a, mem-add a x s)

length-add : (x : String) (s : List String) → length (add x s) ≤ length s + 1
unfolding add
length-add x s = ground (arith, length-append s (x ∷ []))

length-set_of-le : (xs s : List String) → length (set_of xs s) ≤ length s + length xs
unfolding set_of
length-set_of-le [] s = omega arith
length-set_of-le (x ∷ xs) s = omega (arith, length-set_of-le xs (add x s), length-add x s)

-- A set of as many items as the list has none twice, and the other way round.
Distinct-of_length :
    (xs s : List String)
    → length (set_of xs s) ≡ length s + length xs
    → Distinct xs × ((a : String) → mem a xs ≡ true → mem a s ≡ false)
unfolding set_of mem add
Distinct-of_length [] s e = (tt, λ a m. cc)
Distinct-of_length (x ∷ xs) s e = elim (Bool-cases (mem x s)) [
  | inl old ↦
      let e' : length (set_of xs s) ≡ length s + suc (length xs) = rw old at e in
      absurd (omega (arith, e', length-set_of-le xs s))
  | inr new ↦
      let e' : length (set_of xs (s ++ x ∷ [])) ≡ length s + suc (length xs) = rw new at e in
      let (d, off) =
        Distinct-of_length xs (s ++ x ∷ []) (omega (arith, e', length-append s (x ∷ []))) in
      let grown : (a : String) → mem a (s ++ x ∷ []) ≡ (mem a s || a == x) =
        λ a. ground (arith, mem-append a s (x ∷ [])) in
      (
        (ground (arith, off x, grown x, eq_iff x x), d),
        λ a m. ground (arith, off a, grown a, eq_iff a x),
      )
]

length-of_Distinct :
    (xs s : List String)
    → Distinct xs
    → ((a : String) → mem a xs ≡ true → mem a s ≡ false)
    → length (set_of xs s) ≡ length s + length xs
unfolding set_of mem
length-of_Distinct [] s d off = omega arith
length-of_Distinct (x ∷ xs) s d off =
    let new = off x (ground (arith, eq_iff x x)) in
    let grown = ap length (add-new s s x new refl) ∙ refl in
    let rest =
      length-of_Distinct xs (add x s) d.1
        (λ a m. ground (arith, off a, mem-add a x s, eq_iff a x, d.0)) in
    omega (arith, rest, sym grown, length-append s (x ∷ []))

pub any-append :
    (p : GraphValidationIssue → Bool) (xs ys : List GraphValidationIssue)
    → any p (xs ++ ys) ≡ (any p xs || any p ys)
any-append p [] ys = refl
any-append p (x ∷ xs) ys = ground (arith, any-append p xs ys)

pub any-issue_if :
    (p : GraphValidationIssue → Bool) (b : Bool) (i : GraphValidationIssue)
    → any p (issue_if b i) ≡ (b && p i)
any-issue_if p true i = ground arith
any-issue_if p false i = refl

traversal_issues-fatal :
    (disconnected : List String) (cycles : List (List String)) (orphan_nodes : List String)
    → any is_fatal (traversal_issues disconnected cycles orphan_nodes) ≡ false
unfolding traversal_issues
traversal_issues-fatal disconnected cycles orphan_nodes =
    simp (any-append, any-issue_if) (ground arith)

edge_issues-fatal :
    (known : List String) (e : ProtocolEdge)
    → any is_fatal (edge_issues known e)
      ≡ (not (mem e.source known) || (not (mem e.target known) || e.source == e.target))
unfolding edge_issues
edge_issues-fatal known e =
    rw (any-append, any-append, any-issue_if, any-issue_if, any-issue_if) (ground arith)

all_edge_issues-fatal :
    (known : List String) (es : List ProtocolEdge)
    → (any is_fatal (all_edge_issues known es) ≡ false)
      ↔ All (λ e. Joins known e.source e.target) es
unfolding all_edge_issues
all_edge_issues-fatal known [] = (λ h. tt, λ h. refl)
all_edge_issues-fatal known (e ∷ es) =
    let here = edge_issues-fatal known e in
    let rest = all_edge_issues-fatal known es in
    let both = any-append is_fatal (edge_issues known e) (all_edge_issues known es) in
    (
      λ h. (ground (arith, here, both), rest.0 (ground (arith, both))),
      λ h. ground (arith, here, both, rest.1 h.1, h.0),
    )

Joins-set_of :
    (xs : List String) (es : List ProtocolEdge)
    → All (λ e. Joins (set_of xs []) e.source e.target) es
      ↔ All (λ e. Joins xs e.source e.target) es
unfolding mem
Joins-set_of xs es =
    let same : (a : String) → mem a (set_of xs []) ≡ mem a xs =
      λ a. ground (arith, mem-set_of xs [] a) in
    (
      All-map _ _ (λ e (s, t, n). (sym (same e.source) ∙ s, sym (same e.target) ∙ t, n)) es,
      All-map _ _ (λ e (s, t, n). (same e.source ∙ s, same e.target ∙ t, n)) es,
    )

length-addresses : (ns : List ProtocolNode) → length (addresses ns) ≡ length ns
length-addresses [] = refl
length-addresses (n ∷ ns) = omega (arith, length-addresses ns)

-- The validator accepts a graph exactly if its root is a node, no address has two nodes, and every
-- edge joins two different nodes.
pub validate-IsWellFormed : (g : ProtocolGraph) → ((validate g).is_valid ≡ true) ↔ IsWellFormed g
unfolding validate integrity_issues mem
validate-IsWellFormed g =
    let xs = addresses g.nodes in
    let edges = all_edge_issues-fatal (set_of xs []) g.edges in
    let same = Joins-set_of xs g.edges in
    let root = mem-set_of xs [] g.root_node in
    let unrepeated = Distinct-of_length xs [] in
    let distinct = length-of_Distinct xs [] in
    rw (any-append, traversal_issues-fatal, any-append, any-append, any-issue_if, any-issue_if)
      (
        λ valid. record {
          root = ground (arith, root);
          distinct = (unrepeated (ground (arith, length-addresses g.nodes))).0;
          edges = same.0 (edges.0 (ground arith));
        },
        λ w. ground (
          arith,
          root,
          w.root,
          edges.1 (same.1 w.edges),
          distinct w.distinct (λ a m. refl),
          length-addresses g.nodes,
        ),
      )
