-- ===== src/Watch/Lifecycle.antt =====
-- The operations of the registry and of the manager as one type, and a run of them: an operation
-- that raises leaves the store as it was.
pub mod Effects
pub mod Steps
pub mod Registering
pub mod Planned
pub mod Audit
pub mod Refusals
use chain_sentinel.Base.{ℕ, String, Bool, true, false, Option, List, [], ◌∷◌, Dict, Result, ok, err}
use chain_sentinel.Watch.Models.{WatchConfiguration, WatchSubscription, WatchEventType, Payload}
use chain_sentinel.Watch.Subscription.{Texts, watch_id}
use chain_sentinel.Watch.Store.{Store}
use chain_sentinel.Watch.Registry
use chain_sentinel.Watch.Registry.{WatchError, Registration}
use chain_sentinel.Watch.Manager

pub data Operation : Type 0 where
  register : Registration → (now : Option ℕ) → (clock : ℕ) → Operation
  unregister : String → (clock : ℕ) → Operation
  delete_watch : String → (clock : ℕ) → Operation
  update_configuration : String → WatchConfiguration → (now : Option ℕ) → (clock : ℕ) → Operation
  record_execution :
      String → (executed_at : Option ℕ) → Option (Dict String) → (clock : ℕ) → Operation
  enable : String → (now : Option ℕ) → (clock : ℕ) → Operation
  disable : String → (now : Option ℕ) → (clock : ℕ) → Operation
  pause : String → (now : Option ℕ) → (clock : ℕ) → Operation
  resume : String → (now : Option ℕ) → (clock : ℕ) → Operation
  delete : String → (clock : ℕ) → Operation
  save_subscription : WatchSubscription → Operation
  emit_event :
      String
      → WatchEventType
      → (timestamp : Option ℕ) → Option (Dict Payload)
      → (clock : ℕ) → Operation

-- The store that a method leaves, without its value.
abbrev store_of {ℓ} : {A : Type ℓ} → Result WatchError (A × Store) → Result WatchError Store
store_of (ok v) = ok v.1
store_of (err e) = err e

-- The watch that an operation is called for.
unfoldable pub target : Operation → String
unfolding watch_id
target (register args now clock) = watch_id args.chain_id args.root_address
target (unregister k clock) = k
target (delete_watch k clock) = k
target (update_configuration k c now clock) = k
target (record_execution k at snapshot clock) = k
target (enable k now clock) = k
target (disable k now clock) = k
target (pause k now clock) = k
target (resume k now clock) = k
target (delete k clock) = k
target (save_subscription s) = s.subscription_id
target (emit_event k event_type timestamp metadata clock) = k

-- The two methods by which the manager writes through the registry, open to every caller: the rest
-- look the watch up, and compute what they save.
abbrev pub is_lifecycle : Operation → Bool
is_lifecycle (save_subscription s) = false
is_lifecycle (emit_event k event_type timestamp metadata clock) = false
is_lifecycle _ = true

abbrev pub is_save : Operation → Bool
is_save (save_subscription s) = true
is_save _ = false

module _ (texts : Texts) where
  unfoldable pub apply : Store → Operation → Result WatchError Store
  unfolding Registry.register Registry.unregister Registry.delete_watch
      Registry.update_configuration Registry.record_execution Registry.emit_event Manager.enable
      Manager.disable Manager.pause Manager.resume Manager.delete
  apply st (register args now clock) = store_of (Registry.register texts st args now clock)
  apply st (unregister k clock) = store_of (Registry.unregister texts st k clock)
  apply st (delete_watch k clock) = store_of (Registry.delete_watch texts st k clock)
  apply st (update_configuration k c now clock) =
      store_of (Registry.update_configuration texts st k c now clock)
  apply st (record_execution k at snapshot clock) =
      store_of (Registry.record_execution texts st k at snapshot clock)
  apply st (enable k now clock) = store_of (Manager.enable texts st k now clock)
  apply st (disable k now clock) = store_of (Manager.disable texts st k now clock)
  apply st (pause k now clock) = store_of (Manager.pause texts st k now clock)
  apply st (resume k now clock) = store_of (Manager.resume texts st k now clock)
  apply st (delete k clock) = store_of (Manager.delete texts st k clock)
  apply st (save_subscription s) = ok (Registry.save_subscription st s)
  apply st (emit_event k event_type timestamp metadata clock) =
      ok (Registry.emit_event texts st k event_type timestamp metadata clock).1

  -- The store after the operation, whether it raised or not.
  abbrev pub after : Store → Operation → Store
  after st op = elim (apply st op) [ ok st' ↦ st' | err e ↦ st ]

  unfoldable pub perform : Store → List Operation → Store
  unfolding apply
  perform st [] = st
  perform st (op ∷ ops) = perform (after st op) ops
