-- ===== src/Watch/Lifecycle/Effects.antt =====
-- What an operation does to the subscriptions: it saves one that is well formed, or removes one.
use chain_sentinel.Base.{
  ℕ, ◌+◌, String, ◌≡◌, inl, inr, false, Option, none, some, List, ◌∷◌, ◌++◌, arith, ◌==◌, eq_iff,
  if◌then◌else◌, Bool-cases, All, Dict, get, put, remove, get-put, get-remove,
}
use chain_sentinel.Watch.Models.{WatchEvent, WatchSubscription, is_enabled}
use chain_sentinel.Watch.Schedule.{interval}
use chain_sentinel.Watch.Store.{Store}

-- An enabled watch with a period runs next one period after its last change; no other is planned.
abbrev pub planned : WatchSubscription → Option ℕ
planned s =
    if is_enabled s.status
    then elim (interval s.configuration.schedule_type) [
      | none ↦ none
      | some p ↦ some (s.updated_at + p)
    ]
    else none

pub record IsEntry (k : String) (s : WatchSubscription) : Type 0 where
  pub keyed : s.subscription_id ≡ k
  pub watched : s.protocol.watch_id ≡ k
  pub schedule : s.next_execution_at ≡ planned s

abbrev pub AllEntries : Store → Type 0
AllEntries st = (k : String) (s : WatchSubscription) → get st.subscriptions k ≡ some s → IsEntry k s

-- What no operation changes of a watch: whom it is for, and a baseline that is not empty.
pub record Kept (old new : WatchSubscription) : Type 0 where
  pub protocol : new.protocol ≡ old.protocol
  pub created_at : new.created_at ≡ old.created_at
  pub baseline_scan :
      (e : String × String) (rest : Dict String)
      → old.baseline_scan ≡ some (e ∷ rest)
      → new.baseline_scan ≡ old.baseline_scan

-- The events that the operation appends: one at least, and all about the watch.
pub record Logged (k : String) (st st' : Store) : Type 0 where
  pub first : WatchEvent
  pub rest : List WatchEvent
  pub about : All (λ e. e.watch_id ≡ k) (first ∷ rest)
  pub appended : st'.events ≡ st.events ++ (first ∷ rest)

-- Either change of the subscriptions, at the key `k`.
pub data Effect (k : String) (st st' : Store) : Type 0 where
  saved :
      (s : WatchSubscription)
      → IsEntry k s
      → ((old : WatchSubscription) → get st.subscriptions k ≡ some old → Kept old s)
      → st'.subscriptions ≡ put st.subscriptions k s
      → Logged k st st'
      → Effect k st st'
  removed : st'.subscriptions ≡ remove st.subscriptions k → Logged k st st' → Effect k st st'

pub Effect-AllEntries :
    {k : String} {st st' : Store} → Effect k st st' → AllEntries st → AllEntries st'
Effect-AllEntries {k} {st} {st'} (saved s entry kept e logged) entries j t found =
    elim (Bool-cases (k == j)) [
      | inl same ↦
          let here : k ≡ j = (eq_iff k j).0 same in
          let new : t ≡ s = ground (arith, e, get-put st.subscriptions k j s) in
          rw (← here, new) entry
      | inr other ↦ entries j t (ground (arith, e, get-put st.subscriptions k j s))
    ]
Effect-AllEntries {k} {st} (removed e logged) entries j t found =
    entries j t (ground (arith, e, get-remove st.subscriptions k j))

pub Effect-other :
    {k : String} {st st' : Store}
    → Effect k st st'
    → (j : String) → (k == j) ≡ false
    → get st'.subscriptions j ≡ get st.subscriptions j
Effect-other {k} {st} (saved s entry kept e logged) j other =
    ground (arith, e, get-put st.subscriptions k j s)
Effect-other {k} {st} (removed e logged) j other =
    ground (arith, e, get-remove st.subscriptions k j)
