-- ===== src/Watch/Store.antt =====
-- `InMemoryWatchPersistence` of continuous/persistence.py.
use chain_sentinel.Base.{
  String, Bool, true, false, Option, none, some, List, [], ◌∷◌, ◌++◌, map, ◌==◌, filter, text_le,
  sort_by, Dict, get, put, remove, filter,
}
use chain_sentinel.Watch.Models.{WatchSubscription, WatchEvent}

pub record Store : Type 0 where
  pub subscriptions : Dict WatchSubscription
  pub events : List WatchEvent

abbrev pub empty_store : Store
empty_store = record { subscriptions = []; events = [] }

abbrev pub save_subscription : Store → WatchSubscription → Store
save_subscription st s = record st { subscriptions = put st.subscriptions s.subscription_id s }

abbrev pub get_subscription : Store → String → Option WatchSubscription
get_subscription st k = get st.subscriptions k

-- Whether there was a subscription, and the store without it.
abbrev pub delete_subscription : Store → String → Bool × Store
delete_subscription st k = (
  elim (get st.subscriptions k) [ none ↦ false | some _ ↦ true ],
  record st { subscriptions = remove st.subscriptions k },
)

-- The subscriptions in the order of their keys.
unfoldable pub list_subscriptions : Store → List WatchSubscription
list_subscriptions st = map (λ e. e.1) (sort_by (λ a b. text_le a.0 b.0) st.subscriptions)

abbrev pub append_event : Store → WatchEvent → Store
append_event st e = record st { events = st.events ++ e ∷ [] }

unfoldable pub list_events : Store → Option String → List WatchEvent
list_events st none = st.events
list_events st (some k) = filter (λ e. e.watch_id == k) st.events
