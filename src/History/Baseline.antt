-- ===== src/History/Baseline.antt =====
-- `InMemoryBaselineStore` of continuous/history/baseline_store.py: a dictionary by watch.
use chain_sentinel.Base.{
  String, ◌≡◌, Bool, true, false, Option, none, some, List, [], ◌∷◌, arith, ◌==◌, eq_iff,
  if◌then◌else◌, mem, Dict, get, put, keys, get-put,
}
use chain_sentinel.History.Models.{ProtocolSnapshot}

-- Whether the baseline was stored, and the baselines.
unfoldable pub set_baseline :
    Dict ProtocolSnapshot → ProtocolSnapshot → Bool × Dict ProtocolSnapshot
set_baseline baselines s = elim (get baselines s.watch_id) [
  | some _ ↦ (false, baselines)
  | none ↦ (true, put baselines s.watch_id s)
]

abbrev pub get_baseline : Dict ProtocolSnapshot → String → Option ProtocolSnapshot
get_baseline baselines w = get baselines w

unfoldable pub has_baseline : Dict ProtocolSnapshot → String → Bool
has_baseline baselines w = mem w (keys baselines)

-- The baselines after storing snapshots one after the other.
unfoldable pub set_all : Dict ProtocolSnapshot → List ProtocolSnapshot → Dict ProtocolSnapshot
unfolding set_baseline
set_all baselines [] = baselines
set_all baselines (s ∷ ss) = set_all (set_baseline baselines s).1 ss

-- The first snapshot of a watch.
unfoldable pub first_of : String → List ProtocolSnapshot → Option ProtocolSnapshot
first_of w [] = none
first_of w (s ∷ ss) = if s.watch_id == w then some s else first_of w ss

get-set_baseline :
    (baselines : Dict ProtocolSnapshot) (s : ProtocolSnapshot) (w : String)
    → get (set_baseline baselines s).1 w ≡ elim (get baselines w) [
      | some old ↦ some old
      | none ↦ if s.watch_id == w then some s else none
    ]
unfolding set_baseline
get-set_baseline baselines s w =
    ground (arith, get-put baselines s.watch_id w s, eq_iff s.watch_id w)

set_all_from :
    (ss : List ProtocolSnapshot) (baselines : Dict ProtocolSnapshot) (w : String)
    → get_baseline (set_all baselines ss) w
      ≡ elim (get baselines w) [ some s ↦ some s | none ↦ first_of w ss ]
unfolding set_all first_of
set_all_from [] baselines w = ground arith
set_all_from (s ∷ ss) baselines w =
    ground (arith, set_all_from ss (set_baseline baselines s).1 w, get-set_baseline baselines s w)

-- Whatever snapshots are stored on a new store, the baseline of a watch is the first of its
-- snapshots.
pub set_all_lem :
    (ss : List ProtocolSnapshot) (w : String) → get_baseline (set_all [] ss) w ≡ first_of w ss
unfolding get
set_all_lem ss w = set_all_from ss [] w
