-- ===== src/Alerting/Engine/Partition.antt =====
-- The candidates of a batch, split and sorted.
use chain_sentinel.Base.{
  ◌+◌, String, ◌≡◌, refl, inl, inr, true, ◌&&◌, not, List, [], ◌∷◌, map, arith, eq_iff, Bool-cases,
  length, mem, add, mem-add, Distinct,
}
use chain_sentinel.Alerting.Models.{SecurityAlert, SuppressedAlert}
use chain_sentinel.Alerting.Deduplicator.{split_seen}

-- The ids of alerts, and of suppressed alerts.
abbrev pub ids : List SecurityAlert → List String
ids = map (λ a. a.alert_id)

abbrev pub suppressed_ids : List SuppressedAlert → List String
suppressed_ids = map (λ a. a.alert_id)

-- What `deduplicate_batch` promises of the alerts that it is given.
pub record Deduplicated (seen : List String) (alerts unique duplicates : List SecurityAlert)
    : Type 0 where
  pub distinct : Distinct (ids unique)
  pub new : (k : String) → mem k (ids unique) ≡ (mem k (ids alerts) && not (mem k seen))
  pub repeated : (k : String) → mem k (ids duplicates) ≡ true → mem k (ids alerts) ≡ true
  pub counted : length unique + length duplicates ≡ length alerts

pub split_seen-Deduplicated :
    (seen : List String) (alerts : List SecurityAlert)
    → Deduplicated seen alerts (split_seen seen alerts).0 (split_seen seen alerts).1
unfolding split_seen mem
split_seen-Deduplicated seen [] = record {
  distinct = tt;
  new = λ k. refl;
  repeated = λ k h. h;
  counted = refl;
}
split_seen-Deduplicated seen (a ∷ alerts) = elim (Bool-cases (mem a.alert_id seen)) [
  | inl e ↦
      let h = split_seen-Deduplicated seen alerts in
      rw e record {
        distinct = h.distinct;
        new = λ k. ground (arith, h.new k, eq_iff k a.alert_id);
        repeated = λ k m. ground (arith, h.repeated k);
        counted = ground (arith, h.counted);
      }
  | inr e ↦
      let h = split_seen-Deduplicated (add a.alert_id seen) alerts in
      rw e record {
        distinct = (
          ground (
            arith,
            h.new a.alert_id,
            mem-add a.alert_id a.alert_id seen,
            eq_iff a.alert_id a.alert_id,
          ),
          h.distinct,
        );
        new = λ k. ground (arith, h.new k, mem-add k a.alert_id seen, eq_iff k a.alert_id);
        repeated = λ k m. ground (arith, h.repeated k);
        counted = ground (arith, h.counted);
      }
]
