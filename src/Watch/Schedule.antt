-- ===== src/Watch/Schedule.antt =====
-- continuous/scheduler.py. Moments are seconds of UTC, so `_ensure_utc` changes none.
use chain_sentinel.Base.{ℕ, ◌+◌, Bool, false, not, Option, none, some, leb, if◌then◌else◌}
use chain_sentinel.Watch.Models.{
  WatchScheduleType, manual, hourly, daily, weekly, cron, WatchConfiguration, WatchSubscription,
  is_enabled, is_manual, is_cron,
}

-- `INTERVALS`
abbrev pub interval : WatchScheduleType → Option ℕ
interval manual = none
interval hourly = some 3600
interval daily = some 86400
interval weekly = some 604800
interval cron = none

-- Cron expressions are not evaluated yet.
compute_cron_next : WatchConfiguration → ℕ → Option ℕ
compute_cron_next configuration reference_time = none

unfoldable pub compute_next_execution : WatchConfiguration → ℕ → Option ℕ
unfolding compute_cron_next
compute_next_execution configuration reference_time = elim (interval configuration.schedule_type) [
  | none ↦
      if is_cron configuration.schedule_type
      then compute_cron_next configuration reference_time
      else none
  | some seconds ↦ some (reference_time + seconds)
]

unfoldable pub is_due : WatchSubscription → ℕ → Bool
is_due s now =
    if not (is_enabled s.status)
    then false
    else if is_manual s.configuration.schedule_type
    then false
    else elim s.next_execution_at [ none ↦ false | some t ↦ leb t now ]

unfoldable pub schedule_initial : WatchSubscription → ℕ → Option ℕ
unfolding compute_next_execution
schedule_initial s now =
    if is_manual s.configuration.schedule_type
    then none
    else compute_next_execution s.configuration now

unfoldable pub after_execution : WatchSubscription → ℕ → Option ℕ
unfolding compute_next_execution
after_execution s executed_at = compute_next_execution s.configuration executed_at
