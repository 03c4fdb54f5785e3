-- ===== src/Change/Detector.antt =====
-- `ChangeDetector` of continuous/change_detection/change_detector.py. The moment of detection is an
-- argument.
pub mod Report
use chain_sentinel.Base.{
  ℕ, String, Bool, List, [], ◌∷◌, eqb, if◌then◌else◌, length, sort_by, mem, add, Result, ok, ◌>>=◌,
  ◌>>◌, join, texts_le, join,
}
use chain_sentinel.History.Models.{ProtocolSnapshot}
use chain_sentinel.Watch.Subscription.{Texts}
use chain_sentinel.Change.Models.{
  ChangeEvent, ChangeDetectionResult, Error, value_error, change_type_value,
}
use chain_sentinel.Change.Snapshot.{ensure_protocol_compatibility}
use chain_sentinel.Change.Diff.{RawChange, diff, change_event_id, classify}

unfoldable pub event_id_of : Texts → String → RawChange → String
unfolding change_event_id
event_id_of texts watch_id c =
    change_event_id texts watch_id c.change_type c.before c.after c.affected_contracts

unfoldable pub event_of : Texts → String → ℕ → RawChange → ChangeEvent
unfolding event_id_of classify
event_of texts watch_id timestamp c = record {
  event_id = event_id_of texts watch_id c;
  change_type = c.change_type;
  severity = (classify c).0;
  before = c.before;
  after = c.after;
  affected_contracts = c.affected_contracts;
  timestamp = timestamp;
  confidence = (classify c).1;
  metadata = ("watch_id", watch_id) ∷ [];
}

-- The loop of `_build_events`, from the set of ids that are seen.
unfoldable pub new_events : Texts → String → ℕ → List RawChange → List String → List ChangeEvent
unfolding event_of
new_events texts watch_id timestamp [] seen = []
new_events texts watch_id timestamp (c ∷ changes) seen =
    let event_id = event_id_of texts watch_id c in
    if mem event_id seen
    then new_events texts watch_id timestamp changes seen
    else event_of texts watch_id timestamp c
      ∷ new_events texts watch_id timestamp changes (add event_id seen)

abbrev pub event_key : ChangeEvent → List String
event_key e = change_type_value e.change_type ∷ join "," e.affected_contracts ∷ e.event_id ∷ []

abbrev pub event_le : ChangeEvent → ChangeEvent → Bool
event_le a b = texts_le (event_key a) (event_key b)

unfoldable pub build_events : Texts → String → List RawChange → ℕ → List ChangeEvent
unfolding new_events
build_events texts watch_id changes timestamp =
    sort_by event_le (new_events texts watch_id timestamp changes [])

unfoldable pub detect :
    Texts → ProtocolSnapshot → ProtocolSnapshot → ℕ → Result Error ChangeDetectionResult
unfolding ensure_protocol_compatibility diff build_events
detect texts baseline current detected_at = do
  _ ← ensure_protocol_compatibility baseline current
  raw_changes ← diff baseline current
  let events = build_events texts baseline.watch_id raw_changes detected_at
  ok (record {
    watch_id = baseline.watch_id;
    baseline_snapshot_id = baseline.snapshot_id;
    current_snapshot_id = current.snapshot_id;
    detected_at = detected_at;
    changes = events;
    unchanged = eqb (length events) 0;
  })
