-- ===== src/History/Store.antt =====
-- `InMemoryHistoryStore` of continuous/history/history_store.py. The text of a moment, its
-- `isoformat`, is a parameter.
pub mod Keyed
use chain_sentinel.Base.{
  ℕ, suc, String, Bool, true, Option, none, some, List, [], ◌∷◌, ◌++◌, ◌==◌, if◌then◌else◌, filter,
  text_le, sort_by, mem, Dict, get, put, remove, filter,
}
use chain_sentinel.History.Models.{HistoryRecordType, HistoricalRecord, record_type_value}

pub record HistoryStore : Type 0 where
  pub records : Dict HistoricalRecord
  pub watch_index : Dict (List String)

abbrev pub empty_history : HistoryStore
empty_history = record { records = []; watch_index = [] }

-- `index.get(watch_id, [])`
abbrev pub ids_of : Dict (List String) → String → List String
ids_of index w = elim (get index w) [ none ↦ [] | some ids ↦ ids ]

-- A record whose id is there already is not stored again.
unfoldable pub append : HistoryStore → HistoricalRecord → HistoryStore
append st r = elim (get st.records r.record_id) [
  | some _ ↦ st
  | none ↦ record {
    records = put st.records r.record_id r;
    watch_index =
        put st.watch_index r.watch_id (ids_of st.watch_index r.watch_id ++ r.record_id ∷ []);
  }
]

abbrev pub get_record : HistoryStore → String → Option HistoricalRecord
get_record st k = get st.records k

-- `[records[item] for item in ids if item in records]`
unfoldable pub found_records : Dict HistoricalRecord → List String → List HistoricalRecord
found_records d [] = []
found_records d (k ∷ ks) =
    let rest = found_records d ks in elim (get d k) [ none ↦ rest | some r ↦ r ∷ rest ]

-- `record_type is None or item.record_type == record_type`
abbrev pub has_type : Option HistoryRecordType → HistoricalRecord → Bool
has_type none r = true
has_type (some t) r = record_type_value r.record_type == record_type_value t

-- The order of the keys `(timestamp.isoformat(), record_type.value, record_id)`
abbrev pub record_le : (ℕ → String) → HistoricalRecord → HistoricalRecord → Bool
record_le isoformat a b =
    if isoformat a.timestamp == isoformat b.timestamp
    then if record_type_value a.record_type == record_type_value b.record_type
      then text_le a.record_id b.record_id
      else text_le (record_type_value a.record_type) (record_type_value b.record_type)
    else text_le (isoformat a.timestamp) (isoformat b.timestamp)

unfoldable pub list_records :
    (ℕ → String) → HistoryStore → String → Option HistoryRecordType → List HistoricalRecord
unfolding found_records
list_records isoformat st w record_type =
    sort_by (record_le isoformat)
      (filter (has_type record_type) (found_records st.records (ids_of st.watch_index w)))

-- `ids.remove(k)`: the first that is equal.
unfoldable pub remove_first : String → List String → List String
remove_first k [] = []
remove_first k (x ∷ xs) = if x == k then xs else x ∷ remove_first k xs

-- The store without one record, where it is there.
unfoldable pub remove_record : HistoryStore → String → HistoryStore
unfolding remove_first
remove_record st k = elim (get st.records k) [
  | none ↦ st
  | some r ↦
      let ids = ids_of st.watch_index r.watch_id in
      record {
        records = remove st.records k;
        watch_index =
            if mem k ids
            then put st.watch_index r.watch_id (remove_first k ids)
            else st.watch_index;
      }
]

-- The number of records removed, and the store without them.
unfoldable pub remove_records : HistoryStore → List String → ℕ × HistoryStore
unfolding remove_record
remove_records st [] = (0, st)
remove_records st (k ∷ ks) =
    let (removed, st') = remove_records (remove_record st k) ks in
    (elim (get st.records k) [ none ↦ removed | some _ ↦ suc removed ], st')
