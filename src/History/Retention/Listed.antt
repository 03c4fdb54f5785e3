-- ===== src/History/Retention/Listed.antt =====
-- Which records of a watch a retention run protects, lets expire and goes over.
use chain_sentinel.Base.{
  ℕ, ◌+◌, ◌*◌, ◌<◌, String, ◌≡◌, refl, sym, ap, ◌∙◌, subst, ◌↔◌, inl, inr, true, Option, none, some,
  List, [], ◌∷◌, arith, ◌==◌, eq_iff, Bool-cases, Option-cases, filter, All, mem, Dict, get,
  All-unfilter, filter, All-unsort,
}
use chain_sentinel.History.Models.{HistoricalRecord, RetentionPolicy, ProtocolSnapshot}
use chain_sentinel.History.Baseline.{get_baseline}
use chain_sentinel.History.Store.{
  HistoryStore, get_record, list_records, found_records, ids_of, record_le, has_type,
}
use chain_sentinel.History.Retention.{protected_reference_ids, is_expired}

-- What the policy and the baseline of the watch protect: the snapshot of the baseline.
abbrev pub Protects :
    Option (Dict ProtocolSnapshot) → String → RetentionPolicy → HistoricalRecord → Type 0
Protects baselines w policy r =
    (policy.retain_baseline ≡ true)
    × (d : Dict ProtocolSnapshot) × (s : ProtocolSnapshot) × (baselines ≡ some d)
    × (get d w ≡ some s)
    × (r.reference_id ≡ s.snapshot_id)

-- The policy has an age limit in days, and the record is older.
abbrev pub IsOlder : RetentionPolicy → ℕ → HistoricalRecord → Type 0
IsOlder policy now r = (0 < policy.max_age_days) × (r.timestamp + policy.max_age_days * 86400 < now)

-- A stored record that the index of the watch names.
abbrev pub IsListed : HistoryStore → String → HistoricalRecord → Type 0
IsListed st w r =
    (mem r.record_id (ids_of st.watch_index w) ≡ true) × (get_record st r.record_id ≡ some r)

some_or {ℓ} : {A : Type ℓ} → A → Option A → A
some_or a none = a
some_or a (some b) = b

pub some_injective {ℓ} : {A : Type ℓ} (d a b : A) → some a ≡ some b → a ≡ b
unfolding some_or
some_injective d a b e = ap (some_or d) e

pub mem-protected :
    (baselines : Option (Dict ProtocolSnapshot)) (w : String) (policy : RetentionPolicy)
    (r : HistoricalRecord)
    → (mem r.reference_id (protected_reference_ids baselines w policy) ≡ true)
      ↔ Protects baselines w policy r
unfolding protected_reference_ids mem
mem-protected none w policy r = (
  λ m. absurd (ground arith),
  λ (retains, d, s, given, found, refers). let never : none ≡ some d = given in absurd cc,
)
mem-protected (some d) w policy r = elim (Bool-cases policy.retain_baseline) [
  | inr off ↦ (
    λ m. absurd (ground (arith, off)),
    λ (retains, d', s, given, found, refers). absurd (ground (arith, off, retains)),
  )
  | inl on ↦ elim (Option-cases (get_baseline d w)) [
    | inl e ↦
        rw (on, e)
          (
            λ m. absurd (ground arith),
            λ (retains, d', s, given, found, refers).
                let now : d ≡ d' = some_injective d d d' given in
                let never : none ≡ some s = sym e ∙ subst (λ x. get x w ≡ some s) (sym now) found in
                absurd cc,
          )
    | inr (s, e) ↦
        rw (on, e)
          (
            λ m. (refl, d, s, refl, e, ground (arith, eq_iff r.reference_id s.snapshot_id)),
            λ (retains, d', s', given, found, refers).
                let now : d ≡ d' = some_injective d d d' given in
                let same : s ≡ s' =
                  some_injective s s s' (sym e ∙ subst (λ x. get x w ≡ some s') (sym now) found) in
                let here : r.reference_id ≡ s.snapshot_id =
                  refers ∙ ap (λ x. x.snapshot_id) (sym same) in
                ground (arith, eq_iff r.reference_id s.snapshot_id),
          )
  ]
]

pub is_expired-of_older :
    (policy : RetentionPolicy) (now : ℕ) (r : HistoricalRecord)
    → IsOlder policy now r
    → is_expired r policy now ≡ true
is_expired-of_older policy now r h = ground (arith, h.0, h.1)

-- What holds of all records that are found holds of a stored one whose id is looked up.
found-at :
    (P : HistoricalRecord → Type 0) (d : Dict HistoricalRecord) (ks : List String)
    → All P (found_records d ks)
    → (k : String) (r : HistoricalRecord) → mem k ks ≡ true
    → get d k ≡ some r
    → P r
unfolding found_records mem
found-at P d [] h k r m e = absurd (ground arith)
found-at P d (j ∷ ks) h k r m e = elim (Bool-cases (k == j)) [
  | inl same ↦
      let now : k ≡ j = ground (arith, eq_iff k j) in
      let here : get d j ≡ some r = subst (λ x. get d x ≡ some r) now e in
      let h' = rw (here, found_records) at h in h'.0
  | inr other ↦ elim (Option-cases (get d j)) [
    | inl gone ↦ found-at P d ks (rw (gone, found_records) at h) k r (ground arith) e
    | inr (q, there) ↦
        let h' = rw (there, found_records) at h in found-at P d ks h'.1 k r (ground arith) e
  ]
]

pub listed-at :
    (P : HistoricalRecord → Type 0) (isoformat : ℕ → String) (st : HistoryStore) (w : String)
    → All P (list_records isoformat st w none)
    → (r : HistoricalRecord) → IsListed st w r
    → P r
unfolding list_records
listed-at P isoformat st w h r (listed, here) =
    let found = found_records st.records (ids_of st.watch_index w) in
    let filtered = All-unsort P (record_le isoformat) (filter (has_type none) found) h in
    found-at (λ q. true ≡ true → P q) st.records (ids_of st.watch_index w)
      (All-unfilter P (has_type none) found filtered) r.record_id r listed here refl
