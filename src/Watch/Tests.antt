-- ===== src/Watch/Tests.antt =====
-- A daily watch that is executed and then paused.
use chain_sentinel.Base.{
  ◌+◌, String, ◌≡◌, refl, true, false, ◌&&◌, none, some, List, [], ◌∷◌, ◌++◌, leb, get, put, ok,
  decimal,
}
use chain_sentinel.Watch.Models.{
  daily, WatchStatus, WatchConfiguration, WatchSubscription, is_enabled,
}
use chain_sentinel.Watch.Schedule.{interval, is_due}
use chain_sentinel.Watch.Subscription.{Texts}
use chain_sentinel.Watch.Store.{empty_store}
use chain_sentinel.Watch.Lifecycle.{Operation, target, apply, perform}
use chain_sentinel.Watch.Lifecycle.Planned.{reachable-is_due}
use chain_sentinel.Watch.Lifecycle.Refusals.{refusal, exception_of, apply-refusal}
use chain_sentinel.Watch.Registry.{not_paused}
use chain_sentinel.Watch.Lifecycle.Audit.{ChangeFacts, apply-ChangeFacts}

abbrev texts : Texts
texts = record { digest = λ s. s; isoformat = decimal }

abbrev key : String
key = "1:0xab"

abbrev configuration : WatchConfiguration
configuration = record {
  schedule_type = daily;
  cron_expression = none;
  timezone = "UTC";
  metadata = [];
}

abbrev operations : List Operation
operations =
    Operation.register
      (record {
        chain_id = 1;
        root_address = "0xAB";
        protocol_name = "p";
        configuration = some configuration;
        baseline_scan = some (("risk", "low") ∷ []);
        metadata = none;
      })
      (some 1000) 0
    ∷ Operation.record_execution key (some 90000) (some (("risk", "high") ∷ [])) 0
    ∷ []

abbrev watched : WatchSubscription
watched = record {
  subscription_id = key;
  protocol = record {
    watch_id = key;
    chain_id = 1;
    root_address = "0xab";
    protocol_name = "p";
    registered_at = 1000;
    metadata = [];
  };
  configuration = configuration;
  status = WatchStatus.enabled;
  baseline_scan = some (("risk", "low") ∷ []);
  last_execution_at = some 90000;
  next_execution_at = some 176400;
  created_at = 1000;
  updated_at = 90000;
}

watched_runs : get (perform texts empty_store operations).subscriptions key ≡ some watched
unfolding perform get put decimal
watched_runs = refl

pause_runs :
    apply texts (perform texts empty_store operations) (Operation.pause key (some 95000) 0)
    ≡ ok (perform texts empty_store (operations ++ Operation.pause key (some 95000) 0 ∷ []))
unfolding perform get put decimal
pause_runs = refl

-- Due a day after the execution.
due_runs : is_due watched 176400 ≡ true
unfolding is_due
due_runs = refl

reachable-is_due_example :
    (watched.subscription_id ≡ key)
    × (watched.protocol.watch_id ≡ key)
    × (is_due watched 176400 ≡ (
        is_enabled watched.status && elim (interval watched.configuration.schedule_type) [
          | none ↦ false
          | some p ↦ leb (watched.updated_at + p) 176400
        ]))
reachable-is_due_example =
    reachable-is_due texts operations (tt, (tt, tt)) key watched 176400 watched_runs

apply-ChangeFacts_example :
    ChangeFacts
      (target (Operation.pause key (some 95000) 0))
      (perform texts empty_store operations)
      (perform texts empty_store (operations ++ Operation.pause key (some 95000) 0 ∷ []))
apply-ChangeFacts_example =
    apply-ChangeFacts texts operations (tt, (tt, tt)) (Operation.pause key (some 95000) 0)
      (perform texts empty_store (operations ++ Operation.pause key (some 95000) 0 ∷ [])) refl
      pause_runs

-- An enabled watch cannot be resumed.
apply-refusal_example :
    exception_of (apply texts (perform texts empty_store operations) (Operation.resume key none 0))
    ≡ refusal (perform texts empty_store operations) (Operation.resume key none 0)
apply-refusal_example =
    apply-refusal texts (perform texts empty_store operations) (Operation.resume key none 0)

refusal_runs :
    refusal (perform texts empty_store operations) (Operation.resume key none 0)
    ≡ some (not_paused key)
unfolding refusal perform get put decimal
refusal_runs = refl
