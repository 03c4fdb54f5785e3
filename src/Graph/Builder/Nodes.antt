-- ===== src/Graph/Builder/Nodes.antt =====
-- The nodes of a built graph: one for each address of a discovered contract.
use chain_sentinel.Base.{
  String, ◌≡◌, refl, sym, ap, ◌∙◌, subst, inl, inr, ◌||◌, List, [], ◌∷◌, map, arith, ◌==◌, eq_iff,
  Bool-cases, Option-cases, All, mem, Dict, get, put, keys, values, Distinct, mem-keys-put,
  Distinct-put, mem-get, le_int, mem-sort_by_key, Distinct-sort_by_key,
}
use chain_sentinel.Graph.Models.{ProtocolNode, ProtocolContract, ProtocolDiscoveryResult, addresses}
use chain_sentinel.Graph.Nodes.{
  classify_contract, score_of, keep_best_node, best_nodes, node_le, dedupe_nodes, build_nodes,
  mark_node, mark_root_node,
}
use chain_sentinel.Graph.Edges.{contract_addresses}

-- Each node of the dictionary is stored under its address.
abbrev Keyed : Dict ProtocolNode → Type 0
Keyed best = All (λ e. e.1.address ≡ e.0) best

Keyed-put :
    (best : Dict ProtocolNode) (n : ProtocolNode) → Keyed best → Keyed (put best n.address n)
unfolding put
Keyed-put [] n h = (refl, tt)
Keyed-put ((k, m) ∷ best) n h = elim (Bool-cases (k == n.address)) [
  | inl e ↦ rw e (sym (ground (arith, eq_iff k n.address)), h.1)
  | inr e ↦ rw e (h.0, Keyed-put best n h.1)
]

keep_best_node-keeps :
    (best : Dict ProtocolNode) (n : ProtocolNode)
    → Keyed best
    → Distinct (keys best)
    → Keyed (keep_best_node best n)
      × Distinct (keys (keep_best_node best n))
      × ((a : String)
          → mem a (keys (keep_best_node best n)) ≡ (a == n.address || mem a (keys best)))
unfolding keep_best_node
keep_best_node-keeps best n keyed distinct =
    let stored : Keyed (put best n.address n)
        × Distinct (keys (put best n.address n))
        × ((a : String)
            → mem a (keys (put best n.address n)) ≡ (a == n.address || mem a (keys best))) =
      (
        Keyed-put best n keyed,
        Distinct-put best n.address n distinct,
        λ a. mem-keys-put best n.address a n,
      ) in
    elim (Option-cases (get best n.address)) [
      | inl e ↦ rw (e, keep_best_node) stored
      | inr (m, e) ↦ elim (Bool-cases (le_int (score_of m) (score_of n))) [
        | inl better ↦ rw (e, keep_best_node, better) stored
        | inr worse ↦
            let known = mem-get best n.address m e in
            rw (e, keep_best_node, worse) (keyed, distinct, λ a. ground (arith, eq_iff a n.address))
      ]
    ]

best_nodes-keeps :
    (ns : List ProtocolNode) (best : Dict ProtocolNode)
    → Keyed best
    → Distinct (keys best)
    → Keyed (best_nodes ns best)
      × Distinct (keys (best_nodes ns best))
      × ((a : String)
          → mem a (keys (best_nodes ns best)) ≡ (mem a (addresses ns) || mem a (keys best)))
unfolding best_nodes mem
best_nodes-keeps [] best keyed distinct = (keyed, distinct, λ a. refl)
best_nodes-keeps (n ∷ ns) best keyed distinct =
    let (k, d, m) = keep_best_node-keeps best n keyed distinct in
    let (k', d', m') = best_nodes-keeps ns (keep_best_node best n) k d in
    (k', d', λ a. ground (arith, m a, m' a))

addresses-values : (best : Dict ProtocolNode) → Keyed best → addresses (values best) ≡ keys best
addresses-values [] h = refl
addresses-values ((k, n) ∷ best) h = ground (arith, addresses-values best h.1, h.0)

addresses-classify :
    (cs : List ProtocolContract) (name family : String)
    → addresses (map (λ c. classify_contract c name family) cs) ≡ contract_addresses cs
unfolding classify_contract
addresses-classify [] name family = refl
addresses-classify (c ∷ cs) name family =
    ap (λ xs. c.address ∷ xs) (addresses-classify cs name family)

address-mark_node : (root : String) (n : ProtocolNode) → (mark_node root n).address ≡ n.address
unfolding mark_node
address-mark_node root n = ground arith

addresses-mark_root_node :
    (ns : List ProtocolNode) (root : String) → addresses (mark_root_node ns root) ≡ addresses ns
unfolding mark_root_node
addresses-mark_root_node [] root = refl
addresses-mark_root_node (n ∷ ns) root =
    ground (arith, addresses-mark_root_node ns root, address-mark_node root n)

-- The nodes have different addresses, which are those of the contracts.
pub built-nodes :
    (d : ProtocolDiscoveryResult) (root : String)
    → Distinct (addresses (mark_root_node (build_nodes d) root))
      × ((a : String)
          → mem a (addresses (mark_root_node (build_nodes d) root))
            ≡ mem a (contract_addresses d.contracts))
unfolding build_nodes dedupe_nodes mem
built-nodes d root =
    let ns = map (λ c. classify_contract c d.protocol_name d.protocol_family) d.contracts in
    let (keyed, distinct, exact) = best_nodes-keeps ns [] tt tt in
    let vs = values (best_nodes ns []) in
    let same : addresses vs ≡ keys (best_nodes ns []) = addresses-values (best_nodes ns []) keyed in
    rw addresses-mark_root_node (
      Distinct-sort_by_key (λ n. n.address) node_le vs (subst Distinct (sym same) distinct),
      λ a.
          mem-sort_by_key (λ n. n.address) node_le a vs
          ∙ ap (mem a) same
          ∙ exact a
          ∙ ground (
            arith,
            ap (mem a) (addresses-classify d.contracts d.protocol_name d.protocol_family),
          ),
    )
