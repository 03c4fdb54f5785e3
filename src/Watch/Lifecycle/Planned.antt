-- ===== src/Watch/Lifecycle/Planned.antt =====
-- The schedule of a watch in every store that the operations lead to.
use chain_sentinel.Base.{
  ℕ, ◌+◌, String, ◌≡◌, refl, inl, inr, Bool, true, false, ◌&&◌, Option, none, some, List, [], ◌∷◌,
  arith, ◌==◌, eq_iff, leb, Bool-cases, All, get, get-put, Result, ok, err, >>=-eq-ok,
}
use chain_sentinel.Watch.Models.{
  WatchStatus, WatchEventType, deleted, unregistered, WatchSubscription, resumed, is_enabled,
}
use chain_sentinel.Watch.Schedule.{interval, is_due}
use chain_sentinel.Watch.Subscription.{Texts}
use chain_sentinel.Watch.Store.{Store, empty_store}
use chain_sentinel.Watch.Registry
use chain_sentinel.Watch.Registry.{WatchError, now_or, require_subscription}
use chain_sentinel.Watch.Manager
use chain_sentinel.Watch.Lifecycle.{
  Operation, is_lifecycle, target, apply, after, perform, store_of,
}
use chain_sentinel.Watch.Lifecycle.Effects.{IsEntry, AllEntries, Effect, Effect-AllEntries}
use chain_sentinel.Watch.Lifecycle.Steps.{
  transition-Effect, update_configuration-Effect, record_execution-Effect,
}
use chain_sentinel.Watch.Lifecycle.Registering.{register-Effect, remove_watch-Effect}

-- What is saved directly is planned.
abbrev pub SavesPlanned : Operation → Type 0
SavesPlanned (Operation.save_subscription s) = IsEntry s.subscription_id s
SavesPlanned _ = Unit

store_of-ok :
    {A : Type 0} (r : Result WatchError (A × Store)) {st : Store}
    → store_of r ≡ ok st
    → (v : A) × (r ≡ ok (v, st))
store_of-ok (ok (v, st')) h = (v, ground arith)
store_of-ok (err e) h = cc

module _ (texts : Texts) where
  resume-Effect :
      (st : Store) (k : String) (now : Option ℕ) (clock : ℕ) {v : WatchSubscription × Store}
      → AllEntries st
      → Manager.resume texts st k now clock ≡ ok v
      → Effect k st v.1
  unfolding Manager.resume
  resume-Effect st k now clock {v} entries h =
      let (s, found, h') = >>=-eq-ok (require_subscription st k) _ h in
      transition-Effect texts st k WatchStatus.enabled resumed (now_or now clock) {v = v} entries
        (ground arith)

  delete-Effect :
      (st : Store) (k : String) (clock : ℕ) {v : Bool × Store}
      → Manager.delete texts st k clock ≡ ok v
      → Effect k st v.1
  unfolding Manager.delete Registry.delete_watch
  delete-Effect st k clock h =
      let (s, found, h') = >>=-eq-ok (require_subscription st k) _ h in
      remove_watch-Effect texts deleted st k clock h'

  pub apply-Effect :
      (st : Store) (op : Operation) {st' : Store}
      → AllEntries st
      → is_lifecycle op ≡ true
      → apply texts st op ≡ ok st'
      → Effect (target op) st st'
  unfolding apply target Registry.unregister Registry.delete_watch Manager.enable Manager.disable
      Manager.pause
  apply-Effect st (Operation.register args now clock) entries life h =
      register-Effect texts st args now clock (store_of-ok _ h).1
  apply-Effect st (Operation.unregister k clock) entries life h =
      remove_watch-Effect texts unregistered st k clock (store_of-ok _ h).1
  apply-Effect st (Operation.delete_watch k clock) entries life h =
      remove_watch-Effect texts deleted st k clock (store_of-ok _ h).1
  apply-Effect st (Operation.update_configuration k c now clock) entries life h =
      update_configuration-Effect texts st k c now clock entries (store_of-ok _ h).1
  apply-Effect st (Operation.record_execution k at snapshot clock) entries life h =
      record_execution-Effect texts st k at snapshot clock entries (store_of-ok _ h).1
  apply-Effect st (Operation.enable k now clock) entries life h =
      transition-Effect texts st k WatchStatus.enabled WatchEventType.enabled (now_or now clock)
        entries (store_of-ok _ h).1
  apply-Effect st (Operation.disable k now clock) entries life h =
      transition-Effect texts st k WatchStatus.disabled WatchEventType.disabled (now_or now clock)
        entries (store_of-ok _ h).1
  apply-Effect st (Operation.pause k now clock) entries life h =
      transition-Effect texts st k WatchStatus.paused WatchEventType.paused (now_or now clock)
        entries (store_of-ok _ h).1
  apply-Effect st (Operation.resume k now clock) entries life h =
      resume-Effect st k now clock entries (store_of-ok _ h).1
  apply-Effect st (Operation.delete k clock) entries life h =
      delete-Effect st k clock (store_of-ok _ h).1
  apply-Effect st (Operation.save_subscription s) entries life h = cc
  apply-Effect st (Operation.emit_event k event_type timestamp metadata clock) entries life h = cc

  save-AllEntries :
      (st : Store) (s : WatchSubscription)
      → IsEntry s.subscription_id s
      → AllEntries st
      → AllEntries (Registry.save_subscription st s)
  save-AllEntries st s entry entries k t found = elim (Bool-cases (s.subscription_id == k)) [
    | inl same ↦
        let here : s.subscription_id ≡ k = (eq_iff s.subscription_id k).0 same in
        let new : t ≡ s = ground (arith, get-put st.subscriptions s.subscription_id k s) in
        rw (← here, new) entry
    | inr other ↦ entries k t (ground (arith, get-put st.subscriptions s.subscription_id k s))
  ]

  direct-AllEntries :
      (st : Store) (op : Operation)
      → SavesPlanned op
      → is_lifecycle op ≡ false
      → AllEntries st
      → AllEntries (after texts st op)
  unfolding apply
  direct-AllEntries st (Operation.save_subscription s) entry direct entries =
      save-AllEntries st s entry entries
  direct-AllEntries st (Operation.emit_event k event_type timestamp metadata clock) u direct
        entries =
      entries
  direct-AllEntries st _ u direct entries = absurd (let e : true ≡ false = direct in cc)

  lifecycle-AllEntries :
      (st : Store) (op : Operation)
      → is_lifecycle op ≡ true
      → AllEntries st
      → AllEntries (after texts st op)
  lifecycle-AllEntries st op life entries = settled (apply texts st op) refl
    where
      settled :
          (r : Result WatchError Store)
          → apply texts st op ≡ r
          → AllEntries (elim r [ ok st' ↦ st' | err e ↦ st ])
      settled (ok st') e = Effect-AllEntries (apply-Effect st op entries life e) entries
      settled (err x) e = entries

  perform-AllEntries :
      (st : Store) (ops : List Operation)
      → All SavesPlanned ops
      → AllEntries st
      → AllEntries (perform texts st ops)
  unfolding perform
  perform-AllEntries st [] sound entries = entries
  perform-AllEntries st (op ∷ ops) sound entries =
      perform-AllEntries (after texts st op) ops sound.1 (elim (Bool-cases (is_lifecycle op)) [
        | inl life ↦ lifecycle-AllEntries st op life entries
        | inr direct ↦ direct-AllEntries st op sound.0 direct entries
      ])

  pub reachable-AllEntries :
      (ops : List Operation) → All SavesPlanned ops → AllEntries (perform texts empty_store ops)
  unfolding get
  reachable-AllEntries ops sound =
      perform-AllEntries empty_store ops sound (λ k s h. absurd (ground arith))

-- When a watch is due that has the schedule planned for it.
is_due-planned :
    (k : String) (s : WatchSubscription) (now : ℕ)
    → IsEntry k s
    → is_due s now ≡ (
        is_enabled s.status && elim (interval s.configuration.schedule_type) [
          | none ↦ false
          | some p ↦ leb (s.updated_at + p) now
        ])
unfolding is_due
is_due-planned k s now entry = ground (arith, entry.schedule)

-- After any calls of the registry and the manager on a new registry, where each subscription that a
-- caller saves directly has its watch's id and the schedule that its last change plans: a watch that
-- the store holds under a key has that key as its id, and is due exactly if it is enabled, has an
-- hourly, daily or weekly schedule, and one period has gone by since the watch was last changed.
pub reachable-is_due :
    (texts : Texts) (ops : List Operation)
    → All SavesPlanned ops
    → (k : String) (s : WatchSubscription) (now : ℕ)
    → get (perform texts empty_store ops).subscriptions k ≡ some s
    → (s.subscription_id ≡ k)
      × (s.protocol.watch_id ≡ k)
      × (is_due s now ≡ (
          is_enabled s.status && elim (interval s.configuration.schedule_type) [
            | none ↦ false
            | some p ↦ leb (s.updated_at + p) now
          ]))
reachable-is_due texts ops sound k s now h =
    let entry = reachable-AllEntries texts ops sound k s h in
    (entry.keyed, entry.watched, is_due-planned k s now entry)
