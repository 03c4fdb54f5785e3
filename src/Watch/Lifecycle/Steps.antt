-- ===== src/Watch/Lifecycle/Steps.antt =====
-- The transitions, the updates and the executions of a watch have the effect of `Effects`.
use chain_sentinel.Base.{
  ℕ, ◌+◌, String, ◌≡◌, refl, Option, none, some, [], ◌∷◌, ◌++◌, arith, if◌then◌else◌, Dict, get,
  Result, ok, >>=-eq-ok,
}
use chain_sentinel.Watch.Models.{
  WatchEventType, config_updated, executed, Payload, WatchStatus, WatchConfiguration,
  WatchSubscription, is_enabled,
}
use chain_sentinel.Watch.Schedule.{interval, schedule_initial, after_execution}
use chain_sentinel.Watch.Subscription.{Texts, watch_id, merge_configuration}
use chain_sentinel.Watch.Store.{Store, save_subscription}
use chain_sentinel.Watch.Registry
use chain_sentinel.Watch.Registry.{
  event, require_subscription, WatchError, Registration, new_subscription, record_event, now_or,
}
use chain_sentinel.Watch.Manager.{
  ScheduleChange, transitioned, transition, reschedule, clear_schedule,
}
use chain_sentinel.Watch.Lifecycle.Effects.{IsEntry, AllEntries, Kept, Effect, saved}

schedule_initial-planned :
    (s : WatchSubscription) (t : ℕ)
    → schedule_initial s t
      ≡ elim (interval s.configuration.schedule_type) [ none ↦ none | some p ↦ some (t + p) ]
unfolding schedule_initial
schedule_initial-planned s t = ground arith

after_execution-planned :
    (s : WatchSubscription) (t : ℕ)
    → after_execution s t
      ≡ elim (interval s.configuration.schedule_type) [ none ↦ none | some p ↦ some (t + p) ]
unfolding after_execution
after_execution-planned s t = ground arith

pub new_subscription-IsEntry :
    (args : Registration) (t : ℕ)
    → IsEntry (watch_id args.chain_id args.root_address) (new_subscription args t)
unfolding new_subscription
new_subscription-IsEntry args t = record { keyed = refl; watched = refl; schedule = ground arith }

transitioned-IsEntry :
    (k : String) (s : WatchSubscription) (target : WatchStatus) (t : ℕ)
    → IsEntry k s
    → IsEntry k (transitioned s target (if is_enabled target then reschedule else clear_schedule) t)
unfolding transitioned
transitioned-IsEntry k s target t h = record {
  keyed = h.keyed;
  watched = h.watched;
  schedule = ground arith;
}

transitioned-Kept :
    (s : WatchSubscription) (target : WatchStatus) (change : ScheduleChange) (t : ℕ)
    → Kept s (transitioned s target change t)
unfolding transitioned
transitioned-Kept s target change t = record {
  protocol = refl;
  created_at = refl;
  baseline_scan = λ b rest h. refl;
}

pub event-watch_id :
    (texts : Texts) (k : String) (event_type : WatchEventType) (t : ℕ) (m : Dict Payload)
    → (event texts k event_type t m).watch_id ≡ k
unfolding event
event-watch_id texts k event_type t m = refl

pub require_subscription-ok :
    (st : Store) (k : String) {s : WatchSubscription}
    → require_subscription st k ≡ ok s
    → get st.subscriptions k ≡ some s
require_subscription-ok st k h = ground arith

module _ (texts : Texts) where
  pub subscriptions-record_event :
      (st : Store) (k : String) (event_type : WatchEventType) (t : ℕ) (m : Dict Payload)
      → (record_event texts st k event_type t m).subscriptions ≡ st.subscriptions
  unfolding record_event
  subscriptions-record_event st k event_type t m = refl

  events-record_event :
      (st : Store) (k : String) (event_type : WatchEventType) (t : ℕ) (m : Dict Payload)
      → (record_event texts st k event_type t m).events
        ≡ st.events ++ event texts k event_type t m ∷ []
  unfolding record_event event
  events-record_event st k event_type t m = refl

  saved-Effect :
      (st : Store) (k : String) (s : WatchSubscription) (event_type : WatchEventType) (t : ℕ)
      (m : Dict Payload) {v : WatchSubscription × Store}
      (r : Result WatchError (WatchSubscription × Store))
      → r ≡ ok (s, record_event texts (save_subscription st s) k event_type t m)
      → r ≡ ok v
      → IsEntry k s
      → {old : WatchSubscription} → get st.subscriptions k ≡ some old
      → Kept old s
      → Effect k st v.1
  saved-Effect st k s event_type t m r e h entry {old} found kept =
      saved s entry (λ other found'. let same : other ≡ old = ground arith in rw same kept)
        (ground (
          arith,
          subscriptions-record_event (save_subscription st s) k event_type t m,
          entry.keyed,
        ))
        record {
          first = event texts k event_type t m;
          rest = [];
          about = (event-watch_id texts k event_type t m, tt);
          appended = ground (arith, events-record_event (save_subscription st s) k event_type t m);
        }

  pub transition-Effect :
      (st : Store) (k : String) (target : WatchStatus) (event_type : WatchEventType) (t : ℕ)
      {v : WatchSubscription × Store}
      → AllEntries st
      → transition texts st k target event_type
          (if is_enabled target then reschedule else clear_schedule)
          t
        ≡ ok v
      → Effect k st v.1
  unfolding transition
  transition-Effect st k target event_type t entries h =
      let (s, found, h') = >>=-eq-ok (require_subscription st k) _ h in
      let e = require_subscription-ok st k found in
      saved-Effect st k
        (transitioned s target (if is_enabled target then reschedule else clear_schedule) t)
        event_type t [] _ refl h' (transitioned-IsEntry k s target t (entries k s e)) e
        (transitioned-Kept s target _ t)

  pub update_configuration-Effect :
      (st : Store) (k : String) (c : WatchConfiguration) (now : Option ℕ) (clock : ℕ)
      {v : WatchSubscription × Store}
      → AllEntries st
      → Registry.update_configuration texts st k c now clock ≡ ok v
      → Effect k st v.1
  unfolding Registry.update_configuration
  update_configuration-Effect st k c now clock entries h =
      let (s, found, h') = >>=-eq-ok (require_subscription st k) _ h in
      let e = require_subscription-ok st k found in
      let entry = entries k s e in
      saved-Effect st k _ config_updated (now_or now clock) _ _ refl h'
        record {
          keyed = entry.keyed;
          watched = entry.watched;
          schedule = ground (
            arith,
            schedule_initial-planned
                (record s { configuration = merge_configuration s.configuration c })
                (now_or now clock),
          );
        }
        e record { protocol = refl; created_at = refl; baseline_scan = λ b rest h. refl }

  pub record_execution-Effect :
      (st : Store) (k : String) (at : Option ℕ) (snapshot : Option (Dict String)) (clock : ℕ)
      {v : WatchSubscription × Store}
      → AllEntries st
      → Registry.record_execution texts st k at snapshot clock ≡ ok v
      → Effect k st v.1
  unfolding Registry.record_execution
  record_execution-Effect st k at snapshot clock entries h =
      let (s, found, h') = >>=-eq-ok (require_subscription st k) _ h in
      let e = require_subscription-ok st k found in
      let entry = entries k s e in
      saved-Effect st k _ executed (now_or at clock) _ _ refl h'
        record {
          keyed = entry.keyed;
          watched = entry.watched;
          schedule = ground (arith, entry.schedule, after_execution-planned s (now_or at clock));
        }
        e record { protocol = refl; created_at = refl; baseline_scan = λ b rest h. rw h refl }
