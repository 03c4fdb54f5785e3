-- ===== src/Graph/Builder/Adjacency.antt =====
-- The adjacency map of a built graph and its edges.
use chain_sentinel.Base.{
  String, ◌≡◌, refl, ap, ◌∙◌, Bool, true, ◌&&◌, ◌||◌, List, [], ◌∷◌, map, arith, ◌==◌, eq_iff, any,
  All, text_le, insert_sorted, sort_by, sorted, mem, mem-sorted, get, put, keys, Distinct,
  mem-keys-put, Distinct-put, Distinct-sort_by_key, insert_sorted,
}
use chain_sentinel.Graph.Models.{ProtocolNode, ProtocolEdge, AdjacencyMap, addresses}
use chain_sentinel.Graph.Build.{entry, add_target, add_edges, empty_sets, build_adjacency_map}
use chain_sentinel.Scheduler.Incoming.{has_edge, entry-put, entry-add_target, entry-empty_sets}
use chain_sentinel.Graph.Traversal.Collect.{has_edge-entry}

-- Whether there is an edge from `s` to `t`.
abbrev pub joined : List ProtocolEdge → String → String → Bool
joined es s t = any (λ e. e.source == s && e.target == t) es

mem-add_edges :
    (es : List ProtocolEdge) (d : AdjacencyMap) (s t : String)
    → mem t (entry (add_edges es d) s) ≡ (mem t (entry d s) || joined es s t)
unfolding add_edges
mem-add_edges [] d s t = ground arith
mem-add_edges (e ∷ es) d s t =
    let d' = add_target d e.source e.target in
    ground (
      arith,
      mem-add_edges es (put d' e.target (entry d' e.target)) s t,
      entry-put d' e.target s (entry d' e.target),
      entry-add_target d e.source e.target t s,
      eq_iff e.target s,
      eq_iff t e.target,
      eq_iff e.target t,
    )

-- Each key is once there, and is one of the known addresses.
abbrev KnownKeys : List String → AdjacencyMap → Type 0
KnownKeys known d = Distinct (keys d) × ((a : String) → mem a (keys d) ≡ true → mem a known ≡ true)

KnownKeys-put :
    (known : List String) (d : AdjacencyMap) (k : String) (s : List String)
    → mem k known ≡ true
    → KnownKeys known d
    → KnownKeys known (put d k s)
KnownKeys-put known d k s m h =
    (Distinct-put d k s h.0, λ a at. ground (arith, mem-keys-put d k a s, h.1 a, eq_iff a k))

KnownKeys-empty_sets :
    (known : List String) (ns : List ProtocolNode) (d : AdjacencyMap)
    → ((a : String) → mem a (addresses ns) ≡ true → mem a known ≡ true)
    → KnownKeys known d
    → KnownKeys known (empty_sets ns d)
unfolding empty_sets mem
KnownKeys-empty_sets known [] d within h = h
KnownKeys-empty_sets known (n ∷ ns) d within h =
    KnownKeys-empty_sets known ns (put d n.address []) (λ a m. within a (ground arith))
      (KnownKeys-put known d n.address []
        (within n.address (ground (arith, eq_iff n.address n.address))) h)

KnownKeys-add_edges :
    (known : List String) (es : List ProtocolEdge) (d : AdjacencyMap)
    → All (λ e. (mem e.source known ≡ true) × (mem e.target known ≡ true)) es
    → KnownKeys known d
    → KnownKeys known (add_edges es d)
unfolding add_edges add_target
KnownKeys-add_edges known [] d ends h = h
KnownKeys-add_edges known (e ∷ es) d ends h =
    KnownKeys-add_edges known es _ ends.1
      (KnownKeys-put known _ e.target _ ends.0.1 (KnownKeys-put known d e.source _ ends.0.0 h))

has_edge-insert_sorted :
    (le : String × List String → String × List String → Bool) (e : String × List String)
    (d : AdjacencyMap) (s t : String)
    → has_edge (insert_sorted le e d) s t ≡ has_edge (e ∷ d) s t
unfolding insert_sorted has_edge
has_edge-insert_sorted le e [] s t = refl
has_edge-insert_sorted le e (f ∷ d) s t = ground (arith, has_edge-insert_sorted le e d s t)

has_edge-sort_by :
    (le : String × List String → String × List String → Bool) (d : AdjacencyMap) (s t : String)
    → has_edge (sort_by le d) s t ≡ has_edge d s t
unfolding sort_by has_edge
has_edge-sort_by le [] s t = refl
has_edge-sort_by le (e ∷ d) s t =
    ground (arith, has_edge-insert_sorted le e (sort_by le d) s t, has_edge-sort_by le d s t)

has_edge-sorted_values :
    (d : AdjacencyMap) (s t : String)
    → has_edge (map (λ e. (e.0, sorted e.1)) d) s t ≡ has_edge d s t
unfolding has_edge
has_edge-sorted_values [] s t = refl
has_edge-sorted_values ((k, ts) ∷ d) s t =
    ground (arith, has_edge-sorted_values d s t, mem-sorted t ts)

keys-sorted_values : (d : AdjacencyMap) → keys (map (λ e. (e.0, sorted e.1)) d) ≡ keys d
keys-sorted_values [] = refl
keys-sorted_values ((k, ts) ∷ d) = ap (λ ks. k ∷ ks) (keys-sorted_values d)

pub built-adjacency :
    (ns : List ProtocolNode) (es : List ProtocolEdge)
    → All (λ e. (mem e.source (addresses ns) ≡ true) × (mem e.target (addresses ns) ≡ true)) es
    → Distinct (keys (build_adjacency_map ns es))
      × ((s t : String) → has_edge (build_adjacency_map ns es) s t ≡ joined es s t)
unfolding build_adjacency_map mem get
built-adjacency ns es ends =
    let known = addresses ns in
    let le = λ (a b : String × List String). text_le a.0 b.0 in
    let blank = KnownKeys-empty_sets known ns [] (λ a m. m) (tt, λ a m. cc) in
    let (distinct, _) = KnownKeys-add_edges known es (empty_sets ns []) ends blank in
    let d = add_edges es (empty_sets ns []) in
    (
      rw keys-sorted_values (Distinct-sort_by_key (λ e. e.0) le d distinct),
      λ s t.
          has_edge-sorted_values (sort_by le d) s t
          ∙ has_edge-sort_by le d s t
          ∙ has_edge-entry d s t distinct
          ∙ mem-add_edges es (empty_sets ns []) s t
          ∙ ground (arith, ap (mem t) (entry-empty_sets ns [] s refl)),
    )
