-- ===== src/History/Store/Keyed.antt =====
-- The ids under which the store holds records, over appends and removals.
use chain_sentinel.Base.{
  String, ◌≡◌, refl, inl, inr, false, none, some, List, [], ◌∷◌, ◌++◌, arith, ◌==◌, eq_iff,
  if◌then◌else◌, Option-cases, All, mem, mem-append, Dict, get, get-put, get-remove, mem-append,
}
use chain_sentinel.History.Models.{HistoricalRecord}
use chain_sentinel.History.Store.{
  HistoryStore, empty_history, append, get_record, found_records, remove_record, remove_records,
}

abbrev pub Keyed : HistoryStore → Type 0
Keyed st = (k : String) (r : HistoricalRecord) → get_record st k ≡ some r → r.record_id ≡ k

get_record-append :
    (st : HistoryStore) (r : HistoricalRecord) (k : String)
    → get_record (append st r) k ≡ elim (get_record st k) [
      | some old ↦ some old
      | none ↦ if r.record_id == k then some r else none
    ]
unfolding append
get_record-append st r k = ground (arith, get-put st.records r.record_id k r, eq_iff r.record_id k)

get_record-remove_record :
    (st : HistoryStore) (j k : String)
    → get_record (remove_record st j) k ≡ (if j == k then none else get_record st k)
unfolding remove_record
get_record-remove_record st j k = ground (arith, get-remove st.records j k, eq_iff j k)

pub get_record-remove_records :
    (ks : List String) (st : HistoryStore) (k : String)
    → get_record (remove_records st ks).1 k ≡ (if mem k ks then none else get_record st k)
unfolding remove_records mem
get_record-remove_records [] st k = refl
get_record-remove_records (j ∷ ks) st k = ground (
  arith,
  get_record-remove_records ks (remove_record st j) k,
  get_record-remove_record st j k,
  eq_iff j k,
  eq_iff k j,
)

-- A change of the store: a record is appended, or records are removed.
pub data Change : Type 0 where
  append_record : HistoricalRecord → Change
  remove_ids : List String → Change

unfoldable pub run : HistoryStore → List Change → HistoryStore
unfolding append remove_records
run st [] = st
run st (append_record r ∷ cs) = run (append st r) cs
run st (remove_ids ks ∷ cs) = run (remove_records st ks).1 cs

run-Keyed : (cs : List Change) (st : HistoryStore) → Keyed st → Keyed (run st cs)
unfolding run
run-Keyed [] st h = h
run-Keyed (append_record r ∷ cs) st h =
    run-Keyed cs (append st r)
      (λ k q e. ground (arith, get_record-append st r k, h k q, eq_iff r.record_id k))
run-Keyed (remove_ids ks ∷ cs) st h =
    run-Keyed cs (remove_records st ks).1
      (λ k q e. ground (arith, get_record-remove_records ks st k, h k q))

pub reachable-Keyed : (cs : List Change) → Keyed (run empty_history cs)
unfolding get
reachable-Keyed cs = run-Keyed cs empty_history (λ k r h. absurd (ground arith))

-- The ids that the changes remove.
unfoldable pub removed_by : List Change → List String
removed_by [] = []
removed_by (append_record r ∷ cs) = removed_by cs
removed_by (remove_ids ks ∷ cs) = ks ++ removed_by cs

-- A record that the store holds stays the same, through any changes that append records, with any
-- ids, or remove records with other ids.
pub run-immutable :
    (cs : List Change) (st : HistoryStore) (k : String) (r : HistoricalRecord)
    → get_record st k ≡ some r
    → mem k (removed_by cs) ≡ false
    → get_record (run st cs) k ≡ some r
unfolding run removed_by mem
run-immutable [] st k r h absent = h
run-immutable (append_record q ∷ cs) st k r h absent =
    run-immutable cs (append st q) k r (ground (arith, get_record-append st q k)) absent
run-immutable (remove_ids ks ∷ cs) st k r h absent =
    run-immutable cs (remove_records st ks).1 k r
      (ground (arith, get_record-remove_records ks st k, mem-append k ks (removed_by cs)))
      (ground (arith, mem-append k ks (removed_by cs)))

-- Every record of a list that `found_records` gives is what the dictionary holds under its id.
pub found_records-All :
    (d : Dict HistoricalRecord) (ks : List String)
    → ((k : String) (r : HistoricalRecord) → get d k ≡ some r → r.record_id ≡ k)
    → All (λ r. get d r.record_id ≡ some r) (found_records d ks)
unfolding found_records
found_records-All d [] h = tt
found_records-All d (k ∷ ks) h = elim (Option-cases (get d k)) [
  | inl e ↦ rw (found_records, e) (found_records-All d ks h)
  | inr (r, e) ↦ rw (found_records, e) (ground (arith, h k r e), found_records-All d ks h)
]
