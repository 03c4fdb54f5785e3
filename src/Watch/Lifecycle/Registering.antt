-- ===== src/Watch/Lifecycle/Registering.antt =====
-- `register`, and the removal of a watch, have the effect of `Effects`.
use chain_sentinel.Base.{
  ℕ, String, ◌≡◌, refl, Bool, Option, none, some, [], ◌∷◌, append_assoc, arith, Dict, ok, >>=-eq-ok,
  append_assoc,
}
use chain_sentinel.Watch.Models.{
  scheduled, WatchEventType, registered, Payload, text, WatchSubscription,
}
use chain_sentinel.Watch.Subscription.{Texts, watch_id}
use chain_sentinel.Watch.Store.{Store, save_subscription}
use chain_sentinel.Watch.Registry
use chain_sentinel.Watch.Registry.{
  event, require_subscription, WatchError, Registration, new_subscription, record_event, now_or,
}
use chain_sentinel.Watch.Lifecycle.Effects.{Logged, Effect, saved, removed}
use chain_sentinel.Watch.Lifecycle.Steps.{
  subscriptions-record_event, event-watch_id, require_subscription-ok, new_subscription-IsEntry,
}

module _ (texts : Texts) where
  subscriptions-record_scheduled :
      (st : Store) (k : String) (next : Option ℕ) (t : ℕ)
      → (Registry.record_scheduled texts st k next t).subscriptions ≡ st.subscriptions
  unfolding Registry.record_scheduled record_event
  subscriptions-record_scheduled st k none t = refl
  subscriptions-record_scheduled st k (some n) t = refl

  Logged-registered :
      (st st₁ : Store) {st' : Store} (k : String) (next : Option ℕ) (t : ℕ) (m : Dict Payload)
      → st₁.events ≡ st.events
      → st' ≡ Registry.record_scheduled texts (record_event texts st₁ k registered t m) k next t
      → Logged k st st'
  unfolding Registry.record_scheduled record_event event
  Logged-registered st st₁ k none t m same e = record {
    first = event texts k registered t m;
    rest = [];
    about = (refl, tt);
    appended = ground (arith, same);
  }
  Logged-registered st st₁ k (some n) t m same e = record {
    first = event texts k registered t m;
    rest = event texts k scheduled t (("next_execution_at", text (texts.isoformat n)) ∷ []) ∷ [];
    about = (refl, (refl, tt));
    appended = ground (
      arith,
      same,
      append_assoc st.events (event texts k registered t m ∷ [])
          (event texts k scheduled t (("next_execution_at", text (texts.isoformat n)) ∷ []) ∷ []),
    );
  }

  pub register-Effect :
      (st : Store) (args : Registration) (now : Option ℕ) (clock : ℕ)
      {v : WatchSubscription × Store}
      → Registry.register texts st args now clock ≡ ok v
      → Effect (watch_id args.chain_id args.root_address) st v.1
  unfolding Registry.register
  register-Effect st args now clock h =
      let k = watch_id args.chain_id args.root_address in
      let t = now_or now clock in
      let s = new_subscription args t in
      let entry = new_subscription-IsEntry args t in
      let m : Dict Payload = ("protocol_name", text args.protocol_name) ∷ [] in
      let st₁ = save_subscription st s in
      let st₂ = record_event texts st₁ k registered t m in
      saved s entry (λ old found. absurd (ground arith))
        (ground (
          arith,
          subscriptions-record_event texts st₁ k registered t m,
          subscriptions-record_scheduled st₂ k s.next_execution_at t,
          entry.keyed,
        ))
        (Logged-registered st st₁ k s.next_execution_at t m refl (ground arith))

  pub remove_watch-Effect :
      (event_type : WatchEventType) (st : Store) (k : String) (clock : ℕ) {v : Bool × Store}
      → Registry.remove_watch texts event_type st k clock ≡ ok v
      → Effect k st v.1
  unfolding Registry.remove_watch record_event
  remove_watch-Effect event_type st k clock h =
      let (s, found, h') = >>=-eq-ok (require_subscription st k) _ h in
      let e = require_subscription-ok st k found in
      removed (ground arith) record {
        first =
            event texts k event_type clock (("protocol_name", text s.protocol.protocol_name) ∷ []);
        rest = [];
        about = (
          event-watch_id texts k event_type clock
              (("protocol_name", text s.protocol.protocol_name) ∷ []),
          tt,
        );
        appended = ground arith;
      }
