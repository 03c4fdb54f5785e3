-- ===== src/Scheduler/Run/Status.antt =====
-- The invariant of a run: why each node has the status that it has.
use chain_sentinel.Base.{
  String, ◌≡◌, refl, ◌⊎◌, inl, inr, true, false, some, arith, ◌==◌, eq_iff, Bool-cases, all, mem,
  get, put, get-put,
}
use chain_sentinel.Graph.{AdjacencyMap}
use chain_sentinel.Scheduler.Models.{
  NodeScanStatus, pending, running, completed, failed, skipped, is_pending, NodeScanResult, Results,
}
use chain_sentinel.Scheduler.Incoming.{dependencies}

abbrev pub HasStatus : Results → String → NodeScanStatus → Type 0
HasStatus d a s = (r : NodeScanResult) × (get d a ≡ some r) × (r.status ≡ s)

abbrev pub IsPresent : Results → String → Type 0
IsPresent d a = (r : NodeScanResult) × (get d a ≡ some r)

-- Only pending nodes change, and no node goes away.
pub record Step (d d' : Results) : Type 0 where
  pub settled :
      (a : String) (s : NodeScanStatus) → is_pending s ≡ false → HasStatus d a s → HasStatus d' a s
  pub present : (a : String) → IsPresent d a → IsPresent d' a

pub Step-refl : (d : Results) → Step d d
Step-refl d = record { settled = λ a s p h. h; present = λ a h. h }

pub Step-trans : {d e f : Results} → Step d e → Step e f → Step d f
Step-trans p q = record {
  settled = λ a s n h. q.settled a s n (p.settled a s n h);
  present = λ a h. q.present a (p.present a h);
}

module _ (d : Results) (a : String) (r r' : NodeScanResult) (found : get d a ≡ some r)
    (open_node : is_pending r.status ≡ true) where
  put-settled :
      (b : String) (s : NodeScanStatus)
      → is_pending s ≡ false
      → HasStatus d b s
      → HasStatus (put d a r') b s
  put-settled b s n (q, at_b, same) = (q, ground (arith, get-put d a b r', eq_iff a b), same)

  pub put-Step : Step d (put d a r')
  put-Step = record {
    settled = put-settled;
    present = λ b (q, at_b). elim (Bool-cases (a == b)) [
      | inl e ↦ (r', rw (get-put, e))
      | inr e ↦ (q, rw (get-put, e) at_b)
    ];
  }

module _ (incoming : AdjacencyMap) where
  -- Scanned nodes had all their dependencies completed; skipped ones have one that is not.
  abbrev pub IsJustified : Results → String → NodeScanStatus → Type 0
  IsJustified d a pending = Unit
  IsJustified d a running = ⊥
  IsJustified d a completed =
      (x : String) → mem x (dependencies incoming a) ≡ true → HasStatus d x completed
  IsJustified d a failed =
      (x : String) → mem x (dependencies incoming a) ≡ true → HasStatus d x completed
  IsJustified d a skipped =
      (x : String) × (mem x (dependencies incoming a) ≡ true)
      × (HasStatus d x failed ⊎ HasStatus d x skipped)

  abbrev pub AllJustified : Results → Type 0
  AllJustified d = (a : String) (r : NodeScanResult) → get d a ≡ some r → IsJustified d a r.status

  pub Step-IsJustified :
      {d d' : Results} (a : String) (s : NodeScanStatus)
      → Step d d'
      → IsJustified d a s
      → IsJustified d' a s
  Step-IsJustified a pending st h = tt
  Step-IsJustified a running st h = h
  Step-IsJustified a completed st h = λ x m. st.settled x completed refl (h x m)
  Step-IsJustified a failed st h = λ x m. st.settled x completed refl (h x m)
  Step-IsJustified a skipped st (x, m, inl h) = (x, m, inl (st.settled x failed refl h))
  Step-IsJustified a skipped st (x, m, inr h) = (x, m, inr (st.settled x skipped refl h))

  module _ (d : Results) (a : String) (r r' : NodeScanResult) (found : get d a ≡ some r)
      (open_node : is_pending r.status ≡ true) where
    pub put-AllJustified : IsJustified d a r'.status → AllJustified d → AllJustified (put d a r')
    put-AllJustified why all b q at_b = elim (Bool-cases (a == b)) [
      | inl e ↦
          let same : a ≡ b = (eq_iff a b).0 e in
          let new : q ≡ r' = ground (arith, get-put d a b r') in
          rw (new, ← same) (Step-IsJustified a r'.status (put-Step d a r r' found open_node) why)
      | inr e ↦
          Step-IsJustified b q.status (put-Step d a r r' found open_node)
            (all b q (ground (arith, get-put d a b r')))
    ]
