-- ===== src/Graph/Validator/Reported.antt =====
-- What the report of the validator says of nodes that the root does not reach, and of cycles.
use chain_sentinel.Base.{
  String, ◌≡◌, refl, ◌↔◌, Bool, true, false, not, List, [], ◌∷◌, arith, ◌==◌, filter, any, text_le,
  insert_sorted, sort_by, sorted, mem, filter, insert_sorted,
}
use chain_sentinel.Graph.Models.{
  ProtocolEdge, ProtocolGraph, GraphValidationIssue, GraphValidationReport, addresses,
}
use chain_sentinel.Graph.Traversal.{bfs, disconnected_from_root, find_cycles}
use chain_sentinel.Graph.Validator.{
  set_of, edge_issues, all_edge_issues, integrity_issues, traversal_issues, is_nonempty, validate,
}
use chain_sentinel.Graph.Validator.WellFormed.{
  IsWellFormed, any-append, any-issue_if, validate-IsWellFormed,
}

-- Whether an issue has the code.
abbrev pub has_code : String → List GraphValidationIssue → Bool
has_code c issues = any (λ i. i.code == c) issues

-- The codes that the loop over the edges does not give.
abbrev NoEdgeCode : String → Type 0
NoEdgeCode c = (("invalid_edge" == c) ≡ false) × (("self_loop" == c) ≡ false)

has_code-all_edge_issues :
    (c : String)
    → NoEdgeCode c
    → (known : List String) (es : List ProtocolEdge) → has_code c (all_edge_issues known es) ≡ false
unfolding all_edge_issues edge_issues
has_code-all_edge_issues c other known [] = refl
has_code-all_edge_issues c other known (e ∷ es) =
    rw (any-append, any-append, any-append, any-issue_if, any-issue_if, any-issue_if)
      (ground (arith, other, has_code-all_edge_issues c other known es))

has_code-integrity_issues :
    (c : String)
    → NoEdgeCode c
    → ("missing_root" == c) ≡ false
    → ("duplicate_nodes" == c) ≡ false
    → (g : ProtocolGraph) → has_code c (integrity_issues g) ≡ false
unfolding integrity_issues
has_code-integrity_issues c other no_root no_twice g =
    rw (any-append, any-append, any-issue_if, any-issue_if)
      (ground (arith, has_code-all_edge_issues c other (set_of (addresses g.nodes) []) g.edges))

is_nonempty-insert_sorted :
    (x : String) (xs : List String) → is_nonempty (insert_sorted text_le x xs) ≡ true
unfolding insert_sorted
is_nonempty-insert_sorted x [] = refl
is_nonempty-insert_sorted x (y ∷ ys) = ground arith

is_nonempty-sorted : (xs : List String) → is_nonempty (sorted xs) ≡ is_nonempty xs
unfolding sort_by
is_nonempty-sorted [] = refl
is_nonempty-sorted (x ∷ xs) = is_nonempty-insert_sorted x (sorted xs)

is_nonempty-filter : (p : String → Bool) (xs : List String) → is_nonempty (filter p xs) ≡ any p xs
is_nonempty-filter p [] = refl
is_nonempty-filter p (x ∷ xs) = ground (arith, is_nonempty-filter p xs)

-- What a report says: whether the graph is well formed; whether a node is not reached from the root,
-- and whether there are cycles.
pub record Reports (g : ProtocolGraph) (report : GraphValidationReport) : Type 0 where
  pub valid : (report.is_valid ≡ true) ↔ IsWellFormed g
  pub disconnected :
      has_code "disconnected_nodes" report.issues
      ≡ any (λ a. not (mem a (bfs g g.root_node))) (addresses g.nodes)
  pub cyclic : has_code "cycles_detected" report.issues ≡ is_nonempty (find_cycles g)
  pub cycles : report.cycles ≡ find_cycles g

-- The validator accepts a graph exactly if its root is a node, no address has two nodes, and every
-- edge joins two different nodes; whether it accepts it or not, it reports disconnected nodes exactly
-- if the breadth-first search from the root leaves a node out, and cycles exactly if the cycle search
-- finds some, which the report lists.
pub validate-Reports : (g : ProtocolGraph) → Reports g (validate g)
unfolding validate traversal_issues disconnected_from_root
validate-Reports g = record {
  valid = validate-IsWellFormed g;
  disconnected =
      rw
        (
          any-append,
          has_code-integrity_issues "disconnected_nodes" (refl, refl) refl refl g,
          any-append,
          any-append,
          any-issue_if,
          any-issue_if,
          any-issue_if,
          is_nonempty-sorted,
          is_nonempty-filter,
        )
        (ground arith);
  cyclic =
      rw
        (
          any-append,
          has_code-integrity_issues "cycles_detected" (refl, refl) refl refl g,
          any-append,
          any-append,
          any-issue_if,
          any-issue_if,
          any-issue_if,
        )
        (ground arith);
  cycles = refl;
}
