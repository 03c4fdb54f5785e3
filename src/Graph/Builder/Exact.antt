-- ===== src/Graph/Builder/Exact.antt =====
-- When a discovery result becomes a graph, what the graph is then, and that it can be scanned.
use chain_sentinel.Base.{
  ◌<◌, String, ◌≡◌, refl, sym, ◌∙◌, subst, ◌↔◌, inl, inr, true, false, ◌&&◌, List, [], ◌∷◌, arith,
  ◌==◌, eq_iff, Bool-cases, All, lower, mem, keys, ok, err, Distinct, All-map,
}
use chain_sentinel.Graph.Models.{ProtocolEdge, ProtocolDiscoveryResult, ProtocolGraph, addresses}
use chain_sentinel.Graph.Nodes.{build_nodes, mark_root_node}
use chain_sentinel.Graph.Edges.{contract_addresses, all_edges, build_edges}
use chain_sentinel.Graph.Validator.{validate}
use chain_sentinel.Graph.Validator.WellFormed.{Joins, IsWellFormed, validate-IsWellFormed}
use chain_sentinel.Graph.Builder.{invalid_graph, make_graph, build, issue_codes}
use chain_sentinel.Graph.Builder.Nodes.{built-nodes}
use chain_sentinel.Graph.Builder.Edges.{dedupe_edges-ends, all_edges-Known}
use chain_sentinel.Graph.Builder.Adjacency.{joined, built-adjacency}
use chain_sentinel.Scheduler.Incoming.{has_edge}
use chain_sentinel.Scheduler.Retry.{RetryPolicy}
use chain_sentinel.Scheduler.Worker.{Env}
use chain_sentinel.Scheduler.Run.{RunState, run_loop}
use chain_sentinel.Scheduler.Run.Start.{HasSources}
use chain_sentinel.Scheduler.Aggregate.{ProtocolScanResult, run}
use chain_sentinel.Scheduler.Outcome.{RunFacts, run_lem}

-- What the builder needs of a discovery result: the root is among the contracts, and no edge joins
-- an address to itself.
pub record IsBuildable (d : ProtocolDiscoveryResult) : Type 0 where
  pub root : mem (lower d.root_address) (contract_addresses d.contracts) ≡ true
  pub no_loops : All (λ e. (e.source == e.target) ≡ false) (all_edges d)

make_graph-IsWellFormed :
    (d : ProtocolDiscoveryResult) → IsWellFormed (make_graph d) ↔ IsBuildable d
unfolding make_graph build_edges
make_graph-IsWellFormed d =
    let root = lower d.root_address in
    let (distinct, same) = built-nodes d root in
    let nodes = addresses (mark_root_node (build_nodes d) root) in
    let ends = dedupe_edges-ends (Joins nodes) (all_edges d) in
    let loops = λ (e : ProtocolEdge). (e.source == e.target) ≡ false in
    (
      λ w. record {
        root = sym (same root) ∙ w.root;
        no_loops =
            All-map (λ e. Joins nodes e.source e.target) loops (λ e j. j.2) (all_edges d)
              (ends.0 w.edges);
      },
      λ b. record {
        root = same root ∙ b.root;
        distinct = distinct;
        edges = ends.1 (
            All-both nodes (all_edges d) (contract_addresses d.contracts) same
              (all_edges-Known d b.root) b.no_loops);
      },
    )
  where
    All-both :
        (nodes : List String) (es : List ProtocolEdge) (known : List String)
        → ((a : String) → mem a nodes ≡ mem a known)
        → All (λ e. (mem e.source known ≡ true) × (mem e.target known ≡ true)) es
        → All (λ e. (e.source == e.target) ≡ false) es
        → All (λ e. Joins nodes e.source e.target) es
    All-both nodes [] known same h k = tt
    All-both nodes (e ∷ es) known same h k =
        ((same e.source ∙ h.0.0, same e.target ∙ h.0.1, k.0), All-both nodes es known same h.1 k.1)

-- The builder returns the graph exactly if the root is among the discovered contracts and no edge
-- joins an address to itself; else it raises the error with the codes of the issues.
pub build-IsBuildable :
    (d : ProtocolDiscoveryResult)
    → ((build d ≡ ok (make_graph d)) ↔ IsBuildable d)
      × (¬ IsBuildable d
          → build d ≡ err (invalid_graph (issue_codes (validate (make_graph d)).issues)))
unfolding build
build-IsBuildable d =
    let valid = validate-IsWellFormed (make_graph d) in
    let formed = make_graph-IsWellFormed d in
    elim (Bool-cases (validate (make_graph d)).is_valid) [
      | inl e ↦
          rw (e, build)
            ((λ _. formed.0 (valid.0 e), λ _. refl), λ un. absurd (un (formed.0 (valid.0 e))))
      | inr e ↦
          rw (e, build) ((λ h. cc, λ b. absurd (ground (arith, valid.1 (formed.1 b)))), λ un. refl)
    ]

-- What is known of a graph that the builder returns.
pub record IsBuilt (g : ProtocolGraph) : Type 0 where
  pub formed : IsWellFormed g
  pub keyed : Distinct (keys g.adjacency_map)
  pub exact : (s t : String) → has_edge g.adjacency_map s t ≡ joined g.edges s t
  pub sources : HasSources g

joined-source :
    (known : List String) (es : List ProtocolEdge)
    → All (λ e. Joins known e.source e.target) es
    → (s t : String) → joined es s t ≡ true
    → mem s known ≡ true
joined-source known [] h s t j = cc
joined-source known (e ∷ es) h s t j = elim (Bool-cases (e.source == s && e.target == t)) [
  | inl so ↦
      let now : e.source ≡ s = ground (arith, eq_iff e.source s) in
      subst (λ x. mem x known ≡ true) now h.0.0
  | inr other ↦ joined-source known es h.1 s t (ground arith)
]

-- A graph that the builder returns is well-formed, and its adjacency map has each address once and
-- exactly the edges of the graph, all of which start at nodes.
pub build-IsBuilt : (d : ProtocolDiscoveryResult) (g : ProtocolGraph) → build d ≡ ok g → IsBuilt g
unfolding build make_graph
build-IsBuilt d g built = elim (Bool-cases (validate (make_graph d)).is_valid) [
  | inr e ↦ absurd (refused e)
  | inl e ↦
      let w = (validate-IsWellFormed (make_graph d)).0 e in
      let nodes = (make_graph d).nodes in
      let (keyed, exact) = built-adjacency nodes (make_graph d).edges (
        All-map (λ x. Joins (addresses nodes) x.source x.target) _ (λ x j. (j.0, j.1))
          (make_graph d).edges w.edges) in
      subst IsBuilt (same e) (record {
        formed = w;
        keyed = keyed;
        exact = exact;
        sources = λ s t h.
            joined-source (addresses nodes) (make_graph d).edges w.edges s t (sym (exact s t) ∙ h);
      })
]
  where
    refused : (validate (make_graph d)).is_valid ≡ false → ⊥
    refused e = ground arith

    same : (validate (make_graph d)).is_valid ≡ true → make_graph d ≡ g
    same e = ground arith

-- With a valid retry policy, a graph that the builder returns is scanned without an exception: the
-- execution order has exactly the completed nodes, each once and behind what it depends on, and
-- every node has its result.
pub build-run :
    (env : Env) (policy : RetryPolicy) (d : ProtocolDiscoveryResult) (g : ProtocolGraph)
    → 0 < policy.max_attempts
    → build d ≡ ok g
    → (st : RunState) × (res : ProtocolScanResult) × (run_loop env policy g ≡ ok st)
      × (run env policy g ≡ ok res)
      × RunFacts g st.node_results res
build-run env policy d g valid built = run_lem env policy g valid (build-IsBuilt d g built).sources
