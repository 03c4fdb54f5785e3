-- ===== src/Graph/Builder/Edges.antt =====
-- The edges of a built graph: their ends.
use chain_sentinel.Base.{
  String, ◌≡◌, refl, sym, subst, ◌↔◌, inl, inr, Bool, true, ◌&&◌, ◌||◌, not, List, [], ◌∷◌, map,
  arith, ◌==◌, eq_iff, ltb, Bool-cases, Option-cases, &&-true, filter, All, All-append, All-intro,
  lower, insert_sorted, sort_by, mem, Dict, get, put, keys, mem-keys-put, mem-get, All-sort_by,
  All-filter, All-map, All-append, filter, All-intro, &&-true, insert_sorted, ltb,
}
use chain_sentinel.Graph.Models.{
  ProtocolEdge, ProtocolContract, ProtocolRelationship, ProtocolDiscoveryResult,
}
use chain_sentinel.Graph.Edges.{
  same_key, is_proxy_or_root, is_oracle, has_pair, from_relationship, contract_addresses,
  by_address, text_at, admin_edge, oracle_edge, depends_edge, concat_map, infer_admin_to_proxy,
  infer_oracle_to_protocol, infer_depends_on, keep_best_edge, best_edges, edge_le, dedupe_edges,
  all_edges,
}

-- A property of the ends of edges.
module _ (Q : String → String → Type 0) where
  abbrev OfEnds : List ProtocolEdge → Type 0
  OfEnds es = All (λ e. Q e.source e.target) es

  keep_best_edge-ends :
      (best : List ProtocolEdge) (e : ProtocolEdge)
      → OfEnds (keep_best_edge best e) ↔ (OfEnds best × Q e.source e.target)
  unfolding keep_best_edge
  keep_best_edge-ends [] e = (λ h. (tt, h.0), λ h. (h.1, tt))
  keep_best_edge-ends (f ∷ best) e = elim (Bool-cases (same_key f e)) [
    | inl same ↦
        let s : f.source ≡ e.source = ground (arith, eq_iff f.source e.source) in
        let t : f.target ≡ e.target = ground (arith, eq_iff f.target e.target) in
        let there : Q f.source f.target → Q e.source e.target =
          λ q. subst (λ x. Q x e.target) s (subst (Q f.source) t q) in
        let back : Q e.source e.target → Q f.source f.target =
          λ q. subst (Q f.source) (sym t) (subst (λ x. Q x e.target) (sym s) q) in
        elim (Bool-cases (ltb f.confidence e.confidence)) [
          | inl lt ↦ rw (same, lt) (λ h. ((back h.0, h.1), h.0), λ h. (h.1, h.0.1))
          | inr ge ↦ rw (same, ge) (λ h. (h, there h.0), λ h. h.0)
        ]
    | inr other ↦
        let rest = keep_best_edge-ends best e in
        rw other (λ h. ((h.0, (rest.0 h.1).0), (rest.0 h.1).1), λ h. (h.0.0, rest.1 (h.0.1, h.1)))
  ]

  best_edges-ends :
      (es best : List ProtocolEdge) → OfEnds (best_edges es best) ↔ (OfEnds es × OfEnds best)
  unfolding best_edges
  best_edges-ends [] best = (λ h. (tt, h), λ h. h.1)
  best_edges-ends (e ∷ es) best =
      let rest = best_edges-ends es (keep_best_edge best e) in
      let one = keep_best_edge-ends best e in
      (
        λ h. (((one.0 (rest.0 h).1).1, (rest.0 h).0), (one.0 (rest.0 h).1).0),
        λ h. rest.1 (h.0.1, one.1 (h.1, h.0.0)),
      )

  insert_sorted-ends :
      (e : ProtocolEdge) (es : List ProtocolEdge)
      → OfEnds (insert_sorted edge_le e es)
      → Q e.source e.target × OfEnds es
  unfolding insert_sorted
  insert_sorted-ends e [] h = (h.0, tt)
  insert_sorted-ends e (f ∷ es) h = elim (Bool-cases (edge_le e f)) [
    | inl le ↦ let h' = rw le at h in h'
    | inr gt ↦
        let h' = rw gt at h in let rest = insert_sorted-ends e es h'.1 in (rest.0, (h'.0, rest.1))
  ]

  sort_by-ends : (es : List ProtocolEdge) → OfEnds (sort_by edge_le es) → OfEnds es
  unfolding sort_by
  sort_by-ends [] h = tt
  sort_by-ends (e ∷ es) h =
      let (first, rest) = insert_sorted-ends e (sort_by edge_le es) h in
      (first, sort_by-ends es rest)

  -- Dropping duplicates and sorting keeps what holds of all ends, and adds nothing.
  pub dedupe_edges-ends : (es : List ProtocolEdge) → OfEnds (dedupe_edges es) ↔ OfEnds es
  unfolding dedupe_edges
  dedupe_edges-ends es =
      let kept = best_edges-ends es [] in
      (
        λ h. (kept.0 (sort_by-ends (best_edges es []) h)).0,
        λ h. All-sort_by (λ e. Q e.source e.target) edge_le (best_edges es []) (kept.1 (h, tt)),
      )

module _ {ℓ} {A : Type ℓ} (P : ProtocolEdge → Type 0) (f : A → List ProtocolEdge) where
  All-concat_map :
      (K : A → Type 0)
      → ((x : A) → K x → All P (f x))
      → (xs : List A) → All K xs
      → All P (concat_map f xs)
  All-concat_map K each [] h = tt
  All-concat_map K each (x ∷ xs) h =
      All-append P (f x) (concat_map f xs) (each x h.0) (All-concat_map K each xs h.1)

-- The ends are known.
abbrev Known : List String → ProtocolEdge → Type 0
Known known e = (mem e.source known ≡ true) × (mem e.target known ≡ true)

contracts-known :
    (cs : List ProtocolContract) → All (λ c. mem c.address (contract_addresses cs) ≡ true) cs
unfolding mem
contracts-known [] = tt
contracts-known (c ∷ cs) = (
  ground (arith, eq_iff c.address c.address),
  All-map (λ b. mem b.address (contract_addresses cs) ≡ true) _ (λ b m. ground arith) cs
      (contracts-known cs),
)

by_address-known :
    (cs : List ProtocolContract) (d : Dict ProtocolContract) (a : String)
    → mem a (keys (by_address cs d)) ≡ (mem a (contract_addresses cs) || mem a (keys d))
unfolding by_address mem
by_address-known [] d a = refl
by_address-known (c ∷ cs) d a =
    ground (arith, by_address-known cs (put d c.address c) a, mem-keys-put d c.address a c)

admin_edge-Known :
    (cs : List ProtocolContract) (c : ProtocolContract)
    → mem c.address (contract_addresses cs) ≡ true
    → All (Known (contract_addresses cs)) (admin_edge (by_address cs []) c)
unfolding admin_edge mem
admin_edge-Known cs c here = elim (Bool-cases (is_proxy_or_root c.role)) [
  | inr other ↦ rw other tt
  | inl so ↦ elim (Option-cases (text_at c.metadata "admin_address")) [
    | inl none_ ↦ rw (so, none_) tt
    | inr (admin, at_admin) ↦ elim (Option-cases (get (by_address cs []) admin)) [
      | inl unknown ↦ rw (so, at_admin, unknown) tt
      | inr (contract, found) ↦
          let listed = mem-get (by_address cs []) admin contract found in
          rw (so, at_admin, found) ((ground (arith, by_address-known cs [] admin), here), tt)
    ]
  ]
]

oracle_edge-Known :
    (known : List String) (root : String) (c : ProtocolContract)
    → mem root known ≡ true
    → mem c.address known ≡ true
    → All (Known known) (oracle_edge root c)
unfolding oracle_edge
oracle_edge-Known known root c at_root here = elim (Bool-cases (is_oracle c.role)) [
  | inl so ↦ rw so ((here, at_root), tt)
  | inr other ↦ rw other tt
]

depends_edge-Known :
    (rs : List ProtocolRelationship) (known : List String) (root : String) (c : ProtocolContract)
    → mem c.address known ≡ true
    → All (Known known) (depends_edge rs known root c)
unfolding depends_edge
depends_edge-Known rs known root c here = elim (Bool-cases (c.address == root)) [
  | inl so ↦ rw so tt
  | inr other ↦ elim (Option-cases (text_at c.metadata "depends_on")) [
    | inl none_ ↦ rw (other, none_) tt
    | inr (target, at_target) ↦
        elim (Bool-cases (mem target known && not (has_pair rs c.address target))) [
          | inl ok_ ↦ rw (other, at_target, ok_) ((here, ground arith), tt)
          | inr skip_ ↦ rw (other, at_target, skip_) tt
        ]
  ]
]

-- If the root is a discovered contract, the ends of all edges are.
pub all_edges-Known :
    (d : ProtocolDiscoveryResult)
    → mem (lower d.root_address) (contract_addresses d.contracts) ≡ true
    → All (Known (contract_addresses d.contracts)) (all_edges d)
unfolding all_edges infer_admin_to_proxy infer_oracle_to_protocol infer_depends_on
all_edges-Known d root =
    let cs = d.contracts in
    let known = contract_addresses cs in
    let root_address = lower d.root_address in
    let here = contracts-known cs in
    let both : ProtocolEdge → Bool = λ e. mem e.source known && mem e.target known in
    let related = map from_relationship d.relationships in
    let P = Known known in
    All-append P (filter both related) _
      (All-map (λ e. Unit × (both e ≡ true)) P
        (λ e h. &&-true (mem e.source known) (mem e.target known) h.1) (filter both related)
        (All-filter (λ e. Unit) both related (All-intro (λ e. Unit) (λ e. tt) related)))
      (All-append P (concat_map (admin_edge (by_address cs [])) cs) _
        (All-concat_map P (admin_edge (by_address cs [])) _ (admin_edge-Known cs) cs here)
        (All-append P (concat_map (oracle_edge root_address) cs) _
          (All-concat_map P (oracle_edge root_address) _
            (λ c m. oracle_edge-Known known root_address c root m) cs here)
          (All-concat_map P (depends_edge d.relationships known root_address) _
            (λ c m. depends_edge-Known d.relationships known root_address c m) cs here)))
