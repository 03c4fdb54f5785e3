-- ===== src/Reanalysis/Delta/Exact.antt =====
-- What the evidence delta says of the previous and the current evidence.
use chain_sentinel.Base.{
  String, ◌≡◌, refl, sym, ap, ◌∙◌, subst, ◌↔◌, ◌⊎◌, inl, inr, Bool, true, false, ◌&&◌, ◌||◌, not,
  Option, none, some, List, [], ◌∷◌, map, arith, ◌==◌, eq_iff, if◌then◌else◌, Bool-cases,
  Option-cases, All, text_le, insert_sorted, sort_by, mem, Dict, get, put, keys, get-put, Distinct,
  mem-keys-put, Distinct-put, get-mem, mem-get, All-sort_by, mem-sort_by_key, Distinct-sort_by_key,
  insert_sorted,
}
use chain_sentinel.Evidence.Models.{RiskEvidence}
use chain_sentinel.RiskDelta.Classifier.{EvidenceDelta}
use chain_sentinel.Risk.Correlation.Index.{index_by_id}
use chain_sentinel.Risk.Evidence.Merged.{evidence_ids}
use chain_sentinel.Reanalysis.Delta.Same.{SameItem, evidence_changed-SameItem}
use chain_sentinel.Reanalysis.Delta.{
  evidence_changed, sorted_items, added_items, updated_items, removed_items, build,
}

abbrev pub IsKeyed : Dict RiskEvidence → Type 0
IsKeyed d = All (λ e. e.1.id ≡ e.0) d

IsKeyed-put : (d : Dict RiskEvidence) (e : RiskEvidence) → IsKeyed d → IsKeyed (put d e.id e)
unfolding put
IsKeyed-put [] e h = (refl, tt)
IsKeyed-put ((k, x) ∷ d) e h = elim (Bool-cases (k == e.id)) [
  | inl same ↦ rw same (ground (arith, eq_iff k e.id), h.1)
  | inr other ↦ rw other (h.0, IsKeyed-put d e h.1)
]

index_by_id-keeps :
    (es : List RiskEvidence) (d : Dict RiskEvidence)
    → IsKeyed d
    → Distinct (keys d)
    → IsKeyed (index_by_id es d)
      × Distinct (keys (index_by_id es d))
      × ((k : String)
          → mem k (keys (index_by_id es d)) ≡ (mem k (evidence_ids es) || mem k (keys d)))
unfolding index_by_id mem
index_by_id-keeps [] d h distinct = (h, distinct, λ k. refl)
index_by_id-keeps (e ∷ es) d h distinct =
    let (keyed, once, exact) =
      index_by_id-keeps es (put d e.id e) (IsKeyed-put d e h) (Distinct-put d e.id e distinct) in
    (keyed, once, λ k. ground (arith, exact k, mem-keys-put d e.id k e))

get-insert_sorted :
    (le : String × RiskEvidence → String × RiskEvidence → Bool) (j : String) (v : RiskEvidence)
    (d : Dict RiskEvidence) (k : String)
    → mem j (keys d) ≡ false
    → get (insert_sorted le (j, v) d) k ≡ (if j == k then some v else get d k)
unfolding insert_sorted get mem
get-insert_sorted le j v [] k new = refl
get-insert_sorted le j v ((i, w) ∷ d) k new =
    ground (arith, get-insert_sorted le j v d k, eq_iff j i, eq_iff j k, eq_iff i k)

get-sort_by :
    (le : String × RiskEvidence → String × RiskEvidence → Bool) (d : Dict RiskEvidence) (k : String)
    → Distinct (keys d)
    → get (sort_by le d) k ≡ get d k
unfolding sort_by get
get-sort_by le [] k distinct = refl
get-sort_by le ((j, v) ∷ d) k distinct =
    get-insert_sorted le j v (sort_by le d) k (mem-sort_by_key (λ e. e.0) le j d ∙ distinct.0)
    ∙ ground (arith, get-sort_by le d k distinct.1)

is_none-mem :
    (d : Dict RiskEvidence) (k : String)
    → ((get d k ≡ none) × (mem k (keys d) ≡ false))
      ⊎ ((v : RiskEvidence) × (get d k ≡ some v) × (mem k (keys d) ≡ true))
is_none-mem d k = elim (Option-cases (get d k)) [
  | inl e ↦ inl (
    e,
    elim (Bool-cases (mem k (keys d))) [
      | inl m ↦ let (v, f) = get-mem d k m in absurd (ground arith)
      | inr m ↦ m
    ],
  )
  | inr (v, e) ↦ inr (v, e, mem-get d k v e)
]

added_items-exact :
    (previous items : Dict RiskEvidence) (k : String)
    → IsKeyed items
    → mem k (evidence_ids (added_items previous items))
      ≡ (mem k (keys items) && not (mem k (keys previous)))
unfolding added_items mem
added_items-exact previous [] k h = refl
added_items-exact previous ((j, item) ∷ items) k h =
    let rest = added_items-exact previous items k h.1 in
    elim (is_none-mem previous j) [
      | inl (e, out) ↦
          rw (e, added_items) (ground (arith, rest, h.0, out, eq_iff k j, eq_iff k item.id))
      | inr (v, e, there) ↦ rw (e, added_items) (ground (arith, rest, there, eq_iff k j))
    ]

removed_items-exact :
    (current items : Dict RiskEvidence) (k : String)
    → IsKeyed items
    → mem k (evidence_ids (removed_items current items))
      ≡ (mem k (keys items) && not (mem k (keys current)))
unfolding removed_items mem
removed_items-exact current [] k h = refl
removed_items-exact current ((j, item) ∷ items) k h =
    ground (arith, removed_items-exact current items k, h.0, h.1, eq_iff k j, eq_iff k item.id)

-- Whether both have the item and it has changed.
abbrev pub changed_at : Option RiskEvidence → Option RiskEvidence → Bool
changed_at (some before) (some after) = evidence_changed before after
changed_at _ _ = false

abbrev pub updated_ids : List (RiskEvidence × RiskEvidence) → List String
updated_ids us = map (λ u. u.1.id) us

updated_items-within :
    (previous items : Dict RiskEvidence) (k : String)
    → IsKeyed items
    → mem k (keys items) ≡ false
    → mem k (updated_ids (updated_items previous items)) ≡ false
unfolding updated_items mem
updated_items-within previous [] k h out = refl
updated_items-within previous ((j, item) ∷ items) k h out =
    let rest = updated_items-within previous items k h.1 (ground arith) in
    elim (Option-cases (get previous j)) [
      | inl e ↦ rw (e, updated_items) rest
      | inr (v, e) ↦ elim (Bool-cases (evidence_changed v item)) [
        | inl c ↦ rw (e, updated_items, c) (ground (arith, rest, h.0))
        | inr c ↦ rw (e, updated_items, c) rest
      ]
    ]

updated_items-exact :
    (previous items : Dict RiskEvidence) (k : String)
    → IsKeyed items
    → Distinct (keys items)
    → mem k (updated_ids (updated_items previous items)) ≡ changed_at (get previous k) (get items k)
unfolding updated_items mem get
updated_items-exact previous [] k h distinct = elim (Option-cases (get previous k)) [
  | inl e ↦ rw e refl
  | inr (v, e) ↦ rw e refl
]
updated_items-exact previous ((j, item) ∷ items) k h distinct = elim (Bool-cases (j == k)) [
  | inl same ↦
      let now : j ≡ k = ground (arith, eq_iff j k) in
      let none_later =
        updated_items-within previous items k h.1
          (subst (λ x. mem x (keys items) ≡ false) now distinct.0) in
      rw same (elim (Option-cases (get previous j)) [
        | inl e ↦ rw (e, updated_items, none_later, sym (ap (get previous) now) ∙ e) refl
        | inr (v, e) ↦ elim (Bool-cases (evidence_changed v item)) [
          | inl c ↦
              rw (e, updated_items, c, sym (ap (get previous) now) ∙ e, changed_at, c)
                (ground (arith, h.0, eq_iff k item.id))
          | inr c ↦
              rw (e, updated_items, c, none_later, sym (ap (get previous) now) ∙ e, changed_at, c)
                refl
        ]
      ])
  | inr other ↦
      let rest = updated_items-exact previous items k h.1 distinct.1 in
      rw other (elim (Option-cases (get previous j)) [
        | inl e ↦ rw (e, updated_items) rest
        | inr (v, e) ↦ elim (Bool-cases (evidence_changed v item)) [
          | inl c ↦
              rw (e, updated_items, c) (ground (arith, rest, h.0, eq_iff k item.id, eq_iff j k))
          | inr c ↦ rw (e, updated_items, c) rest
        ]
      ])
]

-- The last item with the id, or else the item given.
abbrev pub last_with : String → Option RiskEvidence → List RiskEvidence → Option RiskEvidence
last_with k found [] = found
last_with k found (e ∷ es) = last_with k (if e.id == k then some e else found) es

get-index_by_id :
    (es : List RiskEvidence) (d : Dict RiskEvidence) (k : String)
    → get (index_by_id es d) k ≡ last_with k (get d k) es
unfolding index_by_id
get-index_by_id [] d k = refl
get-index_by_id (e ∷ es) d k =
    get-index_by_id es (put d e.id e) k ∙ ap (λ o. last_with k o es) (get-put d e.id k e)

-- Whether an item that both have has changed: its score, severity, confidence, reason or metadata.
abbrev pub Changes : Option RiskEvidence → Option RiskEvidence → Type 0
Changes (some before) (some after) = ¬ SameItem before after
Changes _ _ = ⊥

changed_at-Changes :
    (before after : Option RiskEvidence) → (changed_at before after ≡ true) ↔ Changes before after
changed_at-Changes none after = (λ e. cc, λ h. absurd h)
changed_at-Changes (some before) none = (λ e. cc, λ h. absurd h)
changed_at-Changes (some before) (some after) =
    let same = evidence_changed-SameItem before after in
    (
      λ e h. let e' = same.1 h in cc,
      λ h. elim (Bool-cases (evidence_changed before after)) [
        | inl e ↦ e
        | inr e ↦ absurd (h (same.0 e))
      ],
    )

pub record IsDelta (previous current : List RiskEvidence) (delta : EvidenceDelta) : Type 0 where
  pub added :
      (k : String)
      → mem k (evidence_ids delta.added)
        ≡ (mem k (evidence_ids current) && not (mem k (evidence_ids previous)))
  pub removed :
      (k : String)
      → mem k (evidence_ids delta.removed)
        ≡ (mem k (evidence_ids previous) && not (mem k (evidence_ids current)))
  pub updated :
      (k : String)
      → (mem k (updated_ids delta.updated) ≡ true)
        ↔ Changes (last_with k none previous) (last_with k none current)

IsKeyed-sorted : (d : Dict RiskEvidence) → IsKeyed d → IsKeyed (sorted_items d)
IsKeyed-sorted d h = All-sort_by (λ e. e.1.id ≡ e.0) (λ a b. text_le a.0 b.0) d h

-- The evidence delta adds exactly the ids that are only in the current evidence, removes exactly
-- those that are only in the previous one, and updates exactly those whose last items in both
-- differ in score, severity, confidence, reason or metadata.
pub build-IsDelta :
    (previous current : List RiskEvidence) → IsDelta previous current (build previous current)
unfolding build mem get
build-IsDelta previous current =
    let le = λ (a b : String × RiskEvidence). text_le a.0 b.0 in
    let old = index_by_id previous [] in
    let new = index_by_id current [] in
    let (old_keyed, old_once, old_ids) = index_by_id-keeps previous [] tt tt in
    let (new_keyed, new_once, new_ids) = index_by_id-keeps current [] tt tt in
    let old_key = λ (k : String). mem-sort_by_key (λ e. e.0) le k old in
    let new_key = λ (k : String). mem-sort_by_key (λ e. e.0) le k new in
    record {
      added = λ k.
          added_items-exact old (sorted_items new) k (IsKeyed-sorted new new_keyed)
          ∙ ground (arith, new_key k, new_ids k, old_ids k);
      removed = λ k.
          removed_items-exact new (sorted_items old) k (IsKeyed-sorted old old_keyed)
          ∙ ground (arith, old_key k, old_ids k, new_ids k);
      updated = λ k.
          let exact =
            updated_items-exact old (sorted_items new) k (IsKeyed-sorted new new_keyed)
              (Distinct-sort_by_key (λ e. e.0) le new new_once)
            ∙ ap (changed_at (get old k)) (get-sort_by le new k new_once) in
          let both : changed_at (get old k) (get new k)
              ≡ changed_at (last_with k none previous) (last_with k none current) =
            ap (λ o. changed_at o (get new k)) (get-index_by_id previous [] k)
            ∙ ap (changed_at (last_with k none previous)) (get-index_by_id current [] k) in
          let (there, back) =
            changed_at-Changes (last_with k none previous) (last_with k none current) in
          (λ m. there (sym both ∙ sym exact ∙ m), λ h. exact ∙ both ∙ back h);
    }
