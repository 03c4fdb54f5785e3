-- ===== src/Change/Store/Refines.antt =====
-- The in-memory snapshot store as what it promises: for each watch, the last baseline and the last
-- current snapshot saved since the watch was deleted.
use chain_sentinel.Base.{
  String, ◌≡◌, refl, Option, none, some, List, [], ◌∷◌, arith, ◌==◌, if◌then◌else◌, get, get-put,
  get-remove,
}
use chain_sentinel.History.Models.{ProtocolSnapshot}
use chain_sentinel.Change.Store.{
  SnapshotStore, no_snapshots, save_baseline, save_current, get_baseline, get_current, delete_watch,
}

-- The calls that change the store.
pub data Operation : Type 0 where
  baseline current : ProtocolSnapshot → Operation
  delete : String → Operation

unfoldable pub step : SnapshotStore → Operation → SnapshotStore
unfolding save_baseline save_current delete_watch
step store (baseline s) = save_baseline store s
step store (current s) = save_current store s
step store (delete watch) = delete_watch store watch

-- From an empty store.
unfoldable pub steps : SnapshotStore → List Operation → SnapshotStore
unfolding step
steps store [] = store
steps store (o ∷ os) = steps (step store o) os

-- The contents of one watch: no keys, no order.
pub record Contents : Type 0 where
  pub baseline_of : String → Option ProtocolSnapshot
  pub current_of : String → Option ProtocolSnapshot

abbrev pub update :
    (String → Option ProtocolSnapshot)
    → String
    → Option ProtocolSnapshot
    → String
    → Option ProtocolSnapshot
update f watch value w = if watch == w then value else f w

abbrev pub effect : Contents → Operation → Contents
effect c (baseline s) = record c { baseline_of = update c.baseline_of s.watch_id (some s) }
effect c (current s) = record c { current_of = update c.current_of s.watch_id (some s) }
effect c (delete watch) = record {
  baseline_of = update c.baseline_of watch none;
  current_of = update c.current_of watch none;
}

abbrev pub effects : Contents → List Operation → Contents
effects c [] = c
effects c (o ∷ os) = effects (effect c o) os

abbrev pub nothing : Contents
nothing = record { baseline_of = λ w. none; current_of = λ w. none }

-- The store holds exactly the contents.
pub record Holds (store : SnapshotStore) (c : Contents) : Type 0 where
  pub baselines : (w : String) → get_baseline store w ≡ c.baseline_of w
  pub currents : (w : String) → get_current store w ≡ c.current_of w

step-Holds :
    (store : SnapshotStore) (c : Contents) (o : Operation)
    → Holds store c
    → Holds (step store o) (effect c o)
unfolding step save_baseline save_current delete_watch get_baseline get_current
step-Holds store c (baseline s) h = record {
  baselines = λ w. ground (arith, get-put store.baselines s.watch_id w s, h.baselines w);
  currents = h.currents;
}
step-Holds store c (current s) h = record {
  baselines = h.baselines;
  currents = λ w. ground (arith, get-put store.current s.watch_id w s, h.currents w);
}
step-Holds store c (delete watch) h = record {
  baselines = λ w. ground (arith, get-remove store.baselines watch w, h.baselines w);
  currents = λ w. ground (arith, get-remove store.current watch w, h.currents w);
}

steps-Holds :
    (os : List Operation) (store : SnapshotStore) (c : Contents)
    → Holds store c
    → Holds (steps store os) (effects c os)
unfolding steps
steps-Holds [] store c h = h
steps-Holds (o ∷ os) store c h = steps-Holds os (step store o) (effect c o) (step-Holds store c o h)

-- After any calls on a new store, looking a watch up gives what the calls mean: the snapshot saved
-- last for the watch, of each of the two kinds, since the watch was deleted last.
pub store-Holds : (os : List Operation) → Holds (steps no_snapshots os) (effects nothing os)
unfolding get_baseline get_current get
store-Holds os =
    steps-Holds os no_snapshots nothing (record { baselines = λ w. refl; currents = λ w. refl })
