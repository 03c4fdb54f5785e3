-- ===== src/History/Retention/Kept.antt =====
-- What a retention run removes and what it keeps.
use chain_sentinel.Base.{
  ℕ, ◌-◌, String, ◌≡◌, sym, ap, ◌∙◌, subst, ◌⊎◌, inl, inr, true, false, ◌&&◌, not, Option, none,
  some, List, [], ◌∷◌, arith, ◌==◌, eq_iff, Bool-cases, &&-true, length, filter, All, sort_by,
  sorted, mem, add, mem-add, mem-sorted, Dict, All-sort_by, All-filter, All-unfilter, All-take,
  All-map, filter, &&-true,
}
use chain_sentinel.History.Models.{
  HistoricalRecord, RetentionPolicy, ArchiveManifest, ProtocolSnapshot,
}
use chain_sentinel.History.Store.{
  HistoryStore, empty_history, get_record, list_records, found_records, ids_of, record_le, has_type,
}
use chain_sentinel.History.Store.Keyed.{
  Keyed, Change, run, reachable-Keyed, get_record-remove_records, found_records-All,
}
use chain_sentinel.History.Retention.Listed.{
  Protects, IsOlder, IsListed, some_injective, mem-protected, is_expired-of_older, listed-at,
}
use chain_sentinel.History.Retention.{
  retention_or_default, protected_reference_ids, is_expired, age_le, add_ids, unprotected,
  expired_ids, overflow_records, remove_ids_of, apply,
}

-- An id that is added belongs to the set or to a record of the list.
mem-add_ids :
    (P : HistoricalRecord → Type 0) (rs : List HistoricalRecord) (ids : List String) (k : String)
    → All P rs
    → mem k (add_ids rs ids) ≡ true
    → (mem k ids ≡ true) ⊎ ((r : HistoricalRecord) × P r × (r.record_id ≡ k))
unfolding add_ids
mem-add_ids P [] ids k ps h = inl h
mem-add_ids P (r ∷ rs) ids k ps h = elim (mem-add_ids P rs (add r.record_id ids) k ps.1 h) [
  | inr found ↦ inr found
  | inl m ↦ elim (Bool-cases (k == r.record_id)) [
    | inl e ↦ inr (r, ps.0, sym ((eq_iff k r.record_id).0 e))
    | inr e ↦ inl (ground (arith, mem-add k r.record_id ids))
  ]
]

add_ids-keeps :
    (rs : List HistoricalRecord) (ids : List String) (k : String)
    → mem k ids ≡ true
    → mem k (add_ids rs ids) ≡ true
unfolding add_ids
add_ids-keeps [] ids k h = h
add_ids-keeps (r ∷ rs) ids k h =
    add_ids-keeps rs (add r.record_id ids) k (ground (arith, mem-add k r.record_id ids))

collected :
    (rs : List HistoricalRecord) (ids : List String)
    → All (λ r. mem r.record_id (add_ids rs ids) ≡ true) rs
unfolding add_ids
collected [] ids = tt
collected (r ∷ rs) ids = (
  add_ids-keeps rs (add r.record_id ids) r.record_id
      (ground (arith, mem-add r.record_id r.record_id ids, eq_iff r.record_id r.record_id)),
  collected rs (add r.record_id ids),
)

-- The store before and after a run for a watch, and its manifest.
pub record Retained (st st' : HistoryStore) (baselines : Option (Dict ProtocolSnapshot))
    (w : String) (policy : RetentionPolicy) (now : ℕ) (manifest : ArchiveManifest) : Type 0 where
  kept :
      (r : HistoricalRecord)
      → get_record st r.record_id ≡ some r
      → Protects baselines w policy r
      → get_record st' r.record_id ≡ some r
  expired :
      (r : HistoricalRecord)
      → IsListed st w r
      → IsOlder policy now r
      → ¬ Protects baselines w policy r
      → get_record st' r.record_id ≡ none
  others :
      (k : String) → mem k manifest.removed_record_ids ≡ false → get_record st' k ≡ get_record st k
  removed :
      (k : String)
      → mem k manifest.removed_record_ids ≡ true
      → (get_record st' k ≡ none)
        × (r : HistoricalRecord) × (get_record st k ≡ some r)
        × ¬ Protects baselines w policy r

module _ (isoformat : ℕ → String) (st : HistoryStore) where
  Stored : HistoricalRecord → Type 0
  Stored r = get_record st r.record_id ≡ some r

  Loose : List String → HistoricalRecord → Type 0
  unfolding Stored
  Loose protected_ids r = Stored r × (unprotected protected_ids r ≡ true)

  list_records-Stored : (w : String) → Keyed st → All Stored (list_records isoformat st w none)
  unfolding list_records Stored
  list_records-Stored w keyed =
      let found = found_records st.records (ids_of st.watch_index w) in
      let h =
        All-filter Stored (has_type none) found
          (found_records-All st.records (ids_of st.watch_index w) keyed) in
      All-sort_by Stored (record_le isoformat) (filter (has_type none) found) (
        All-map (λ r. Stored r × (has_type none r ≡ true)) Stored (λ r p. p.0)
          (filter (has_type none) found) h)

  module _ (records : List HistoricalRecord) (protected_ids : List String)
      (policy : RetentionPolicy) (now : ℕ) where
    expired-Loose :
        (k : String)
        → All Stored records
        → mem k (expired_ids records protected_ids policy now) ≡ true
        → (r : HistoricalRecord) × Loose protected_ids r × (r.record_id ≡ k)
    unfolding expired_ids Loose mem
    expired-Loose k stored m =
        let test =
          λ (r : HistoricalRecord). unprotected protected_ids r && is_expired r policy now in
        elim (mem-add_ids (Loose protected_ids) (filter test records) [] k
          (All-map (λ r. Stored r × (test r ≡ true)) (Loose protected_ids)
            (λ r p. (p.0, (&&-true _ _ p.1).0)) (filter test records)
            (All-filter Stored test records stored))
          m) [ inl never ↦ absurd (ground arith) | inr found ↦ found ]

    overflow-Loose :
        (ids : List String)
        → All Stored records
        → All (Loose protected_ids) (overflow_records isoformat records protected_ids ids policy)
    unfolding overflow_records Loose
    overflow-Loose ids stored =
        let here = λ (r : HistoricalRecord). not (mem r.record_id ids) in
        let remaining = filter here records in
        let oldest = sort_by (age_le isoformat) remaining in
        let kept =
          All-map (λ r. Stored r × (here r ≡ true)) Stored (λ r p. p.0) remaining
            (All-filter Stored here records stored) in
        All-take (Loose protected_ids) (length remaining - policy.max_records_per_watch)
          (filter (unprotected protected_ids) oldest)
          (All-filter Stored (unprotected protected_ids) oldest
            (All-sort_by Stored (age_le isoformat) remaining kept))

    mem-remove_ids_of :
        (k : String)
        → All Stored records
        → mem k (remove_ids_of isoformat records protected_ids policy now) ≡ true
        → (r : HistoricalRecord) × Loose protected_ids r × (r.record_id ≡ k)
    unfolding remove_ids_of
    mem-remove_ids_of k stored m =
        let expired = expired_ids records protected_ids policy now in
        elim (mem-add_ids (Loose protected_ids)
          (overflow_records isoformat records protected_ids expired policy) expired k
          (overflow-Loose expired stored) m) [
            | inl e ↦ expired-Loose k stored e
            | inr found ↦ found
          ]

    expired-removed :
        All
          (λ r.
            (unprotected protected_ids r && is_expired r policy now) ≡ true
            → mem r.record_id (remove_ids_of isoformat records protected_ids policy now) ≡ true)
          records
    unfolding remove_ids_of expired_ids
    expired-removed =
        let test =
          λ (r : HistoricalRecord). unprotected protected_ids r && is_expired r policy now in
        let expired = expired_ids records protected_ids policy now in
        let over = overflow_records isoformat records protected_ids expired policy in
        All-unfilter
          (λ r. mem r.record_id (remove_ids_of isoformat records protected_ids policy now) ≡ true)
          test records
          (All-map (λ r. mem r.record_id expired ≡ true) _
            (λ r m. add_ids-keeps over expired r.record_id m) (filter test records)
            (collected (filter test records) []))

-- After a retention run for a watch, on a store that any appends and removals led to: a record whose
-- reference is the snapshot of the baseline is still stored, where the policy retains the baseline;
-- a record of the watch that is older than the policy allows and not so protected is gone; every
-- record whose id the manifest does not name is as it was; and a record that the manifest names is
-- gone, was stored, and was not protected.
pub apply-Retained :
    (isoformat : ℕ → String) (cs : List Change) (baselines : Option (Dict ProtocolSnapshot))
    (w : String) (policy : Option RetentionPolicy) (now : ℕ)
    → Retained
        (run empty_history cs)
        (apply isoformat (run empty_history cs) baselines w policy now).1
        baselines
        w
        (retention_or_default policy)
        now
        (apply isoformat (run empty_history cs) baselines w policy now).0
unfolding apply Stored Loose
apply-Retained isoformat cs baselines w policy now =
    let st = run empty_history cs in
    let active = retention_or_default policy in
    let records = list_records isoformat st w none in
    let protected_ids = protected_reference_ids baselines w active in
    let ids = remove_ids_of isoformat records protected_ids active now in
    let stored = list_records-Stored isoformat st w (reachable-Keyed cs) in
    let after = λ (k : String). get_record-remove_records (sorted ids) st k in
    let named = λ (k : String). mem-sorted k ids in
    let origin = λ (k : String) (m : mem k ids ≡ true).
      mem-remove_ids_of isoformat st records protected_ids active now k stored m in
    let safe = λ (r : HistoricalRecord). mem-protected baselines w active r in
    record {
      kept = λ r here p. elim (Bool-cases (mem r.record_id ids)) [
        | inl m ↦
            let (q, loose, same) = origin r.record_id m in
            let one : r ≡ q =
              some_injective r r q (sym here ∙ ap (get_record st) (sym same) ∙ loose.0) in
            let q_safe = (safe q).1 (subst (Protects baselines w active) one p) in
            absurd (ground (arith, loose.1, q_safe))
        | inr m ↦ ground (arith, after r.record_id, named r.record_id)
      ];
      expired = λ r (listed, here) (limited, older) loose.
          elim (Bool-cases (mem r.reference_id protected_ids)) [
            | inl m ↦ absurd (loose ((safe r).0 m))
            | inr m ↦
                let old = is_expired-of_older active now r (limited, older) in
                let gone =
                  listed-at
                    (λ q.
                      (unprotected protected_ids q && is_expired q active now) ≡ true
                      → mem q.record_id ids ≡ true)
                    isoformat st w (expired-removed isoformat st records protected_ids active now) r
                    (listed, here) (ground (arith, old, m)) in
                ground (arith, after r.record_id, named r.record_id)
          ];
      others = λ k m. ground (arith, after k);
      removed = λ k m.
          let (r, loose, same) = origin k (ground (arith, named k)) in
          (
            ground (arith, after k),
            r,
            ground arith,
            λ p. let m' = (safe r).1 p in absurd (ground (arith, loose.1, m')),
          );
    }
