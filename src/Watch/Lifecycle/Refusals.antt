-- ===== src/Watch/Lifecycle/Refusals.antt =====
-- Which operations raise, and what.
use chain_sentinel.Base.{
  String, ◌≡◌, refl, Option, none, some, arith, if◌then◌else◌, get, Result, ok, err,
}
use chain_sentinel.Watch.Models.{is_paused}
use chain_sentinel.Watch.Subscription.{Texts}
use chain_sentinel.Watch.Store.{Store}
use chain_sentinel.Watch.Registry
use chain_sentinel.Watch.Registry.{WatchError, duplicate_watch, watch_not_found, not_paused}
use chain_sentinel.Watch.Manager
use chain_sentinel.Watch.Manager.{transition}
use chain_sentinel.Watch.Lifecycle.{Operation, target, apply}

-- The exception of an operation that needs its watch.
abbrev missing : Store → String → Option WatchError
missing st k = elim (get st.subscriptions k) [ none ↦ some (watch_not_found k) | some s ↦ none ]

-- What an operation should raise: a new watch must not be there, any other must; only a paused
-- watch is resumed; and saving a subscription or emitting an event raises nothing.
unfoldable pub refusal : Store → Operation → Option WatchError
unfolding target
refusal st (Operation.register args now clock) =
    let k = target (Operation.register args now clock) in
    elim (get st.subscriptions k) [ none ↦ none | some s ↦ some (duplicate_watch k) ]
refusal st (Operation.resume k now clock) = elim (get st.subscriptions k) [
  | none ↦ some (watch_not_found k)
  | some s ↦ if is_paused s.status then none else some (not_paused k)
]
refusal st (Operation.unregister k clock) = missing st k
refusal st (Operation.delete_watch k clock) = missing st k
refusal st (Operation.update_configuration k c now clock) = missing st k
refusal st (Operation.record_execution k at snapshot clock) = missing st k
refusal st (Operation.enable k now clock) = missing st k
refusal st (Operation.disable k now clock) = missing st k
refusal st (Operation.pause k now clock) = missing st k
refusal st (Operation.delete k clock) = missing st k
refusal st (Operation.save_subscription s) = none
refusal st (Operation.emit_event k event_type timestamp metadata clock) = none

abbrev pub exception_of {ℓ} : {A : Type ℓ} → Result WatchError A → Option WatchError
exception_of (ok a) = none
exception_of (err e) = some e

module _ (texts : Texts) where
  -- In any store, an operation raises exactly the exception that is due: that the watch to register
  -- is there already, that the watch of another operation is not there, or that the watch to resume
  -- is not paused; and with none of these it succeeds, as do saving a subscription and emitting an
  -- event in any case.
  pub apply-refusal :
      (st : Store) (op : Operation) → exception_of (apply texts st op) ≡ refusal st op
  unfolding apply refusal target Registry.register Registry.unregister Registry.delete_watch
      Registry.remove_watch Registry.update_configuration Registry.record_execution Manager.enable
      Manager.disable Manager.pause Manager.resume Manager.delete transition
  apply-refusal st (Operation.register args now clock) = ground arith
  apply-refusal st (Operation.resume k now clock) = ground arith
  apply-refusal st (Operation.unregister k clock) = ground arith
  apply-refusal st (Operation.delete_watch k clock) = ground arith
  apply-refusal st (Operation.update_configuration k c now clock) = ground arith
  apply-refusal st (Operation.record_execution k at snapshot clock) = ground arith
  apply-refusal st (Operation.enable k now clock) = ground arith
  apply-refusal st (Operation.disable k now clock) = ground arith
  apply-refusal st (Operation.pause k now clock) = ground arith
  apply-refusal st (Operation.delete k clock) = ground arith
  apply-refusal st (Operation.save_subscription s) = refl
  apply-refusal st (Operation.emit_event k event_type timestamp metadata clock) = refl
