-- ===== src/Watch/Lifecycle/Audit.antt =====
-- What a successful operation leaves alone, and what it adds to the audit log.
use chain_sentinel.Base.{
  ℕ, String, ◌≡◌, refl, ap, subst, ◌⊎◌, inl, inr, true, false, Option, none, some, List, [], arith,
  ◌==◌, eq_iff, Bool-cases, All, Dict, get, get-put, get-remove, Result, ok, err,
}
use chain_sentinel.Watch.Models.{WatchSubscription, WatchEventType, Payload}
use chain_sentinel.Watch.Registry
use chain_sentinel.Watch.Registry.{WatchError}
use chain_sentinel.Watch.Subscription.{Texts}
use chain_sentinel.Watch.Store.{Store, empty_store}
use chain_sentinel.Watch.Lifecycle.{Operation, is_lifecycle, is_save, target, apply, perform}
use chain_sentinel.Watch.Lifecycle.Effects.{Kept, Logged, Effect, Effect-other, saved, removed}
use chain_sentinel.Watch.Lifecycle.Planned.{SavesPlanned, apply-Effect, reachable-AllEntries}

-- The watch is gone, or what is kept of it is as it was.
abbrev pub Remains : String → Store → Store → Type 0
Remains k st st' =
    (old : WatchSubscription)
    → get st.subscriptions k ≡ some old
    → (get st'.subscriptions k ≡ none)
      ⊎ (new : WatchSubscription) × (get st'.subscriptions k ≡ some new) × Kept old new

pub record ChangeFacts (k : String) (st st' : Store) : Type 0 where
  pub others : (j : String) → (k == j) ≡ false → get st'.subscriptions j ≡ get st.subscriptions j
  pub remains : Remains k st st'
  pub logged : Logged k st st'

Effect-Remains : {k : String} {st st' : Store} → Effect k st st' → Remains k st st'
Effect-Remains {k} {st} (saved s entry kept e logged) old found =
    inr (s, ground (arith, e, get-put st.subscriptions k k s, eq_iff k k), kept old found)
Effect-Remains {k} {st} (removed e logged) old found =
    inl (ground (arith, e, get-remove st.subscriptions k k, eq_iff k k))

Effect-Logged : {k : String} {st st' : Store} → Effect k st st' → Logged k st st'
Effect-Logged (saved s entry kept e logged) = logged
Effect-Logged (removed e logged) = logged

store_or : Store → Result WatchError Store → Store
store_or st (ok st') = st'
store_or st (err e) = st

ok_injective : (st a b : Store) → ◌≡◌ {A = Result WatchError Store} (ok a) (ok b) → a ≡ b
unfolding store_or
ok_injective st a b e = ap (store_or st) e

-- An event that is emitted is one more event of its watch, and changes no watch.
emit-ChangeFacts :
    (texts : Texts) (st : Store) (k : String) (event_type : WatchEventType) (timestamp : Option ℕ)
    (metadata : Option (Dict Payload)) (clock : ℕ)
    → ChangeFacts k st (Registry.emit_event texts st k event_type timestamp metadata clock).1
unfolding Registry.emit_event Registry.record_event Registry.event
emit-ChangeFacts texts st k event_type timestamp metadata clock = record {
  others = λ j other. refl;
  remains = λ old found.
      inr (
        old,
        found,
        record { protocol = refl; created_at = refl; baseline_scan = λ e rest h. refl },
      );
  logged = record {
    first = (Registry.emit_event texts st k event_type timestamp metadata clock).0;
    rest = [];
    about = (refl, tt);
    appended = refl;
  };
}

direct-ChangeFacts :
    (texts : Texts) (st : Store) (op : Operation) (st' : Store)
    → is_save op ≡ false
    → is_lifecycle op ≡ false
    → apply texts st op ≡ ok st'
    → ChangeFacts (target op) st st'
unfolding apply target
direct-ChangeFacts texts st (Operation.emit_event k event_type timestamp metadata clock) st' other
      direct h =
    let now : (Registry.emit_event texts st k event_type timestamp metadata clock).1 ≡ st' =
      ok_injective st _ st' h in
    subst (ChangeFacts k st) now (emit-ChangeFacts texts st k event_type timestamp metadata clock)
direct-ChangeFacts texts st (Operation.save_subscription s) st' other direct h =
    absurd (let e : true ≡ false = other in cc)
direct-ChangeFacts texts st _ st' other direct h = absurd (let e : true ≡ false = direct in cc)

-- Whatever calls came before on a new registry, where each subscription saved directly has its
-- watch's id and the schedule planned for it: a call that succeeds, but for saving a subscription
-- directly, leaves every watch but its target as it was; its target is removed or keeps its protocol,
-- its time of creation and a baseline that is not empty; and the call appends events to the log, at
-- least one, that are all about its target.
pub apply-ChangeFacts :
    (texts : Texts) (ops : List Operation)
    → All SavesPlanned ops
    → (op : Operation) (st' : Store) → is_save op ≡ false
    → apply texts (perform texts empty_store ops) op ≡ ok st'
    → ChangeFacts (target op) (perform texts empty_store ops) st'
apply-ChangeFacts texts ops sound op st' other h = elim (Bool-cases (is_lifecycle op)) [
  | inr direct ↦ direct-ChangeFacts texts (perform texts empty_store ops) op st' other direct h
  | inl life ↦
      let effect =
        apply-Effect texts (perform texts empty_store ops) op (reachable-AllEntries texts ops sound)
          life h in
      record {
        others = Effect-other effect;
        remains = Effect-Remains effect;
        logged = Effect-Logged effect;
      }
]
