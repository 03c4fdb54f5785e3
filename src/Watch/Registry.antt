-- ===== src/Watch/Registry.antt =====
-- continuous/watch_registry.py. A method takes the store and returns its value with the store after
-- it, or the exception that it raises: every method raises before its first write. `clock` is what
-- `_utc_now()` reads.
use chain_sentinel.Base.{
  ℕ, String, Bool, Option, none, some, [], ◌∷◌, if◌then◌else◌, Dict, Result, ok, err, ◌>>=◌,
}
use chain_sentinel.Watch.Models.{
  WatchStatus, WatchEventType, registered, unregistered, config_updated, deleted, scheduled,
  executed, WatchConfiguration, WatchSubscription, WatchEvent, Payload, text, mapping,
  default_configuration, is_enabled, event_type_value, schedule_type_value,
}
use chain_sentinel.Watch.Schedule.{schedule_initial, after_execution}
use chain_sentinel.Watch.Subscription.{
  Texts, watch_id, build_watched_protocol, build_subscription, merge_configuration, event_id,
}
use chain_sentinel.Watch.Store.{
  Store, save_subscription as persist, get_subscription, delete_subscription, append_event,
}

pub data WatchError : Type 0 where
  duplicate_watch watch_not_found not_paused : String → WatchError

-- `now or _utc_now()`
abbrev pub now_or : Option ℕ → ℕ → ℕ
now_or none clock = clock
now_or (some t) clock = t

-- `a or b` of optional dictionaries: an empty one is falsy.
abbrev pub dict_or : Option (Dict String) → Option (Dict String) → Option (Dict String)
dict_or none b = b
dict_or (some []) b = b
dict_or (some (e ∷ d)) b = some (e ∷ d)

-- `a or {}`
abbrev pub dict_or_empty : Option (Dict String) → Dict String
dict_or_empty none = []
dict_or_empty (some d) = d

abbrev pub require_subscription : Store → String → Result WatchError WatchSubscription
require_subscription st k = elim (get_subscription st k) [
  | none ↦ err (watch_not_found k)
  | some s ↦ ok s
]

-- The keyword arguments of `register`.
pub record Registration : Type 0 where
  pub chain_id : ℕ
  pub root_address : String
  pub protocol_name : String
  pub configuration : Option WatchConfiguration
  pub baseline_scan : Option (Dict String)
  pub metadata : Option (Dict String)

-- `configuration or WatchConfiguration()`
abbrev configuration_or_default : Option WatchConfiguration → WatchConfiguration
configuration_or_default none = default_configuration
configuration_or_default (some c) = c

-- The subscription that `register` saves.
unfoldable pub new_subscription : Registration → ℕ → WatchSubscription
unfolding build_subscription build_watched_protocol schedule_initial
new_subscription args timestamp =
    let protocol =
      build_watched_protocol args.chain_id args.root_address args.protocol_name timestamp
        (dict_or_empty args.metadata) in
    let subscription =
      build_subscription protocol (configuration_or_default args.configuration) WatchStatus.enabled
        args.baseline_scan timestamp timestamp in
    record subscription { next_execution_at = schedule_initial subscription timestamp }

-- `metadata or {}`
abbrev pub payload_or_empty : Option (Dict Payload) → Dict Payload
payload_or_empty none = []
payload_or_empty (some d) = d

-- Any subscription, as it is given.
abbrev pub save_subscription : Store → WatchSubscription → Store
save_subscription st s = persist st s

module _ (texts : Texts) where
  unfoldable pub event : String → WatchEventType → ℕ → Dict Payload → WatchEvent
  unfolding event_id
  event k event_type timestamp metadata = record {
    event_id = event_id texts k (event_type_value event_type) timestamp;
    event_type = event_type;
    watch_id = k;
    timestamp = timestamp;
    metadata = metadata;
  }

  unfoldable pub record_event : Store → String → WatchEventType → ℕ → Dict Payload → Store
  unfolding event
  record_event st k event_type timestamp metadata =
      append_event st (event k event_type timestamp metadata)

  unfoldable pub emit_event :
      Store → String → WatchEventType → Option ℕ → Option (Dict Payload) → ℕ → WatchEvent × Store
  unfolding event record_event
  emit_event st k event_type timestamp metadata clock =
      let moment = now_or timestamp clock in
      let carried = payload_or_empty metadata in
      (event k event_type moment carried, record_event st k event_type moment carried)

  -- A scheduled watch emits a second event.
  unfoldable pub record_scheduled : Store → String → Option ℕ → ℕ → Store
  unfolding record_event
  record_scheduled st k none timestamp = st
  record_scheduled st k (some next) timestamp =
      record_event st k scheduled timestamp
        (("next_execution_at", text (texts.isoformat next)) ∷ [])

  unfoldable pub register :
      Store → Registration → Option ℕ → ℕ → Result WatchError (WatchSubscription × Store)
  unfolding new_subscription record_event record_scheduled watch_id
  register st args now clock =
      let identifier = watch_id args.chain_id args.root_address in
      let timestamp = now_or now clock in
      let subscription = new_subscription args timestamp in
      let st₁ = persist st subscription in
      let st₂ =
        record_event st₁ identifier registered timestamp
          (("protocol_name", text args.protocol_name) ∷ []) in
      elim (get_subscription st identifier) [
        | some _ ↦ err (duplicate_watch identifier)
        | none ↦
            ok (
              subscription,
              record_scheduled st₂ identifier subscription.next_execution_at timestamp,
            )
      ]

  -- `unregister` and `delete_watch` differ in the event that they emit.
  unfoldable pub remove_watch :
      WatchEventType → Store → String → ℕ → Result WatchError (Bool × Store)
  unfolding record_event
  remove_watch event_type st k clock = do
    subscription ← require_subscription st k
    let (gone, st₁) = delete_subscription st k
    ok (
      gone,
      if gone
          then record_event st₁ k event_type clock
              (("protocol_name", text subscription.protocol.protocol_name) ∷ [])
          else st₁,
    )

  unfoldable pub unregister : Store → String → ℕ → Result WatchError (Bool × Store)
  unfolding remove_watch
  unregister = remove_watch unregistered

  unfoldable pub delete_watch : Store → String → ℕ → Result WatchError (Bool × Store)
  unfolding remove_watch
  delete_watch = remove_watch deleted

  unfoldable pub update_configuration :
      Store
      → String
      → WatchConfiguration
      → Option ℕ
      → ℕ
      → Result WatchError (WatchSubscription × Store)
  unfolding record_event schedule_initial
  update_configuration st k configuration now clock = do
    subscription ← require_subscription st k
    let timestamp = now_or now clock
    let merged = merge_configuration subscription.configuration configuration
    let updated : WatchSubscription = record subscription {
      configuration = merged;
      updated_at = timestamp;
      next_execution_at =
          if is_enabled subscription.status
          then schedule_initial (record subscription { configuration = merged }) timestamp
          else none;
    }
    ok (
      updated,
      record_event (persist st updated) k config_updated timestamp
          (("schedule_type", text (schedule_type_value merged.schedule_type)) ∷ []),
    )

  unfoldable pub record_execution :
      Store
      → String
      → Option ℕ
      → Option (Dict String)
      → ℕ
      → Result WatchError (WatchSubscription × Store)
  unfolding record_event after_execution
  record_execution st k executed_at scan_snapshot clock = do
    subscription ← require_subscription st k
    let timestamp = now_or executed_at clock
    let updated : WatchSubscription = record subscription {
      baseline_scan = dict_or subscription.baseline_scan scan_snapshot;
      last_execution_at = some timestamp;
      next_execution_at =
          if is_enabled subscription.status
          then after_execution subscription timestamp
          else subscription.next_execution_at;
      updated_at = timestamp;
    }
    ok (
      updated,
      record_event (persist st updated) k executed timestamp
          (("scan_snapshot", mapping (dict_or_empty scan_snapshot)) ∷ []),
    )
