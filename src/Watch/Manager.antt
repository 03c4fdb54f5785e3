-- ===== src/Watch/Manager.antt =====
-- continuous/watch_manager.py: the lifecycle of a registered watch.
use chain_sentinel.Base.{
  ℕ, String, Bool, not, Option, none, [], if◌then◌else◌, Result, ok, err, ◌>>=◌, ◌>>◌,
}
use chain_sentinel.Watch.Models.{WatchStatus, WatchEventType, resumed, WatchSubscription, is_paused}
use chain_sentinel.Watch.Schedule.{schedule_initial}
use chain_sentinel.Watch.Subscription.{Texts}
use chain_sentinel.Watch.Store.{Store, save_subscription}
use chain_sentinel.Watch.Registry.{
  WatchError, not_paused, now_or, require_subscription, record_event, delete_watch,
}

-- The keyword arguments `reschedule` and `clear_schedule`, of which no caller sets both.
pub data ScheduleChange : Type 0 where
  reschedule clear_schedule keep_schedule : ScheduleChange

-- The subscription that a transition saves.
unfoldable pub transitioned :
    WatchSubscription → WatchStatus → ScheduleChange → ℕ → WatchSubscription
unfolding schedule_initial
transitioned s target change timestamp = record s {
  status = target;
  next_execution_at = elim change [
    | clear_schedule ↦ none
    | keep_schedule ↦ s.next_execution_at
    | reschedule ↦ schedule_initial (record s { status = WatchStatus.enabled }) timestamp
  ];
  updated_at = timestamp;
}

module _ (texts : Texts) where
  unfoldable pub transition :
      Store
      → String
      → WatchStatus
      → WatchEventType
      → ScheduleChange
      → ℕ
      → Result WatchError (WatchSubscription × Store)
  unfolding transitioned record_event
  transition st k target event_type change timestamp = do
    subscription ← require_subscription st k
    let updated = transitioned subscription target change timestamp
    ok (updated, record_event texts (save_subscription st updated) k event_type timestamp [])

  unfoldable pub enable :
      Store → String → Option ℕ → ℕ → Result WatchError (WatchSubscription × Store)
  unfolding transition
  enable st k now clock =
      transition st k WatchStatus.enabled WatchEventType.enabled reschedule (now_or now clock)

  unfoldable pub disable :
      Store → String → Option ℕ → ℕ → Result WatchError (WatchSubscription × Store)
  unfolding transition
  disable st k now clock =
      transition st k WatchStatus.disabled WatchEventType.disabled clear_schedule (now_or now clock)

  unfoldable pub pause :
      Store → String → Option ℕ → ℕ → Result WatchError (WatchSubscription × Store)
  unfolding transition
  pause st k now clock =
      transition st k WatchStatus.paused WatchEventType.paused clear_schedule (now_or now clock)

  unfoldable pub resume :
      Store → String → Option ℕ → ℕ → Result WatchError (WatchSubscription × Store)
  unfolding transition
  resume st k now clock = do
    subscription ← require_subscription st k
    if not (is_paused subscription.status)
        then err (not_paused k)
        else transition st k WatchStatus.enabled resumed reschedule (now_or now clock)

  -- The manager looks the watch up once more before the registry does.
  unfoldable pub delete : Store → String → ℕ → Result WatchError (Bool × Store)
  unfolding delete_watch
  delete st k clock = do require_subscription st k; delete_watch texts st k clock
