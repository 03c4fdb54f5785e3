-- ===== src/Change/Detector/Report.antt =====
-- What the detector reports of two snapshots.
use chain_sentinel.Base.{
  String, ◌≡◌, ◌↔◌, true, List, map, ◌==◌, eqb, lower, length-sort_by, mem, Distinct,
  length-sort_by,
}
use chain_sentinel.History.Models.{ProtocolSnapshot}
use chain_sentinel.Watch.Subscription.{Texts}
use chain_sentinel.Change.Models.{ChangeEvent, ChangeDetectionResult}
use chain_sentinel.Change.Diff.{RawChange, all_changes}
use chain_sentinel.Change.Diff.Exact.{SameState}
use chain_sentinel.Change.Detector.{event_id_of}

-- The snapshots are of one watched protocol.
pub record IsCompatible (baseline current : ProtocolSnapshot) : Type 0 where
  pub watch : (baseline.watch_id == current.watch_id) ≡ true
  pub chain : eqb baseline.chain_id current.chain_id ≡ true
  pub root : (lower baseline.root_address == lower current.root_address) ≡ true

abbrev pub event_ids : List ChangeEvent → List String
event_ids es = map (λ e. e.event_id) es

module _ (texts : Texts) (watch_id : String) where
  abbrev pub change_ids : List RawChange → List String
  change_ids cs = map (event_id_of texts watch_id) cs

-- What a report says.
pub record Reports (texts : Texts) (baseline current : ProtocolSnapshot) (r : ChangeDetectionResult)
    : Type 0 where
  pub unchanged : (r.unchanged ≡ true) ↔ SameState baseline current
  pub distinct : Distinct (event_ids r.changes)
  pub exact :
      (k : String)
      → mem k (event_ids r.changes)
        ≡ mem k (change_ids texts baseline.watch_id (all_changes baseline current))
