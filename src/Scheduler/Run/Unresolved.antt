-- ===== src/Scheduler/Run/Unresolved.antt =====
-- The last pass, which skips what is still pending.
use chain_sentinel.Base.{
  String, ◌≡◌, refl, subst, ◌⊎◌, inl, inr, true, false, some, [], ◌∷◌, arith, ◌==◌, eq_iff,
  if◌then◌else◌, Bool-cases, All, mem, get, put, keys, get-put, ok, Distinct, Fits, Fits-self,
  Fits-put, mem-get,
}
use chain_sentinel.Graph.{AdjacencyMap}
use chain_sentinel.Scheduler.Models.{
  NodeScanStatus, pending, running, completed, failed, skipped, is_pending, is_completed,
  NodeScanResult, Results,
}
use chain_sentinel.Scheduler.Incoming.{dependencies}
use chain_sentinel.Scheduler.Worker.{Env, skip}
use chain_sentinel.Scheduler.Run.{unresolved_items, all_completed}
use chain_sentinel.Scheduler.Run.Status.{
  HasStatus, IsJustified, AllJustified, Step, Step-refl, Step-trans, Step-IsJustified, put-Step,
}
use chain_sentinel.Scheduler.Run.Scans.{all_completed-false}
use chain_sentinel.Scheduler.Run.Ready.{ReadyFacts}

module _ (env : Env) where
  abbrev after_item : Results → String → NodeScanResult → Results
  after_item d a r =
      if is_pending r.status then put d a (skip env a "unresolved_dependencies") else d

  Fits-after_item :
      (items d : Results) (a : String) (r : NodeScanResult)
      → mem a (keys items) ≡ false
      → Fits items d
      → Fits items (after_item d a r)
  Fits-after_item items d a r absent h = elim (Bool-cases (is_pending r.status)) [
    | inl e ↦ rw e (Fits-put items d a _ absent h)
    | inr e ↦ rw e h
  ]

  Step-after_item :
      (d : Results) (a : String) (r : NodeScanResult) → get d a ≡ some r → Step d (after_item d a r)
  Step-after_item d a r found = elim (Bool-cases (is_pending r.status)) [
    | inl e ↦ rw e (put-Step d a r _ found e)
    | inr e ↦ rw e (Step-refl d)
  ]

  unresolved_items-Step :
      (items d : Results)
      → Distinct (keys items)
      → Fits items d
      → Step d (unresolved_items env items d)
  unfolding unresolved_items
  unresolved_items-Step [] d distinct fits = Step-refl d
  unresolved_items-Step ((a, r) ∷ items) d distinct fits =
      Step-trans (Step-after_item d a r fits.0) (
        unresolved_items-Step items (after_item d a r) distinct.1
          (Fits-after_item items d a r distinct.0 fits.1))

  -- Where a node's entry comes from: it was there, or it was pending and is skipped now.
  abbrev pub Origin : Results → Results → String → NodeScanResult → Type 0
  Origin items d b q =
      ((get d b ≡ some q) × (mem b (keys items) ≡ true → is_pending q.status ≡ false))
      ⊎ ((r : NodeScanResult) × (get d b ≡ some r)
          × (is_pending r.status ≡ true)
          × (q.status ≡ skipped))

  Origin-cons :
      (items d : Results) (a b : String) (r q : NodeScanResult)
      → get d a ≡ some r
      → Origin items (after_item d a r) b q
      → Origin ((a, r) ∷ items) d b q
  unfolding skip mem
  Origin-cons items d a b r q found (inl (at_b, h)) =
      ground (arith, eq_iff a b, eq_iff b a, get-put d a b (skip env a "unresolved_dependencies"))
  Origin-cons items d a b r q found (inr (r', at_b, p, s)) =
      inr
        (r', ground (arith, eq_iff a b, get-put d a b (skip env a "unresolved_dependencies")), p, s)

  unresolved_items-Origin :
      (items d : Results) (b : String) (q : NodeScanResult)
      → Distinct (keys items)
      → Fits items d
      → get (unresolved_items env items d) b ≡ some q
      → Origin items d b q
  unfolding unresolved_items mem
  unresolved_items-Origin [] d b q distinct fits found = inl (found, λ m. cc)
  unresolved_items-Origin ((a, r) ∷ items) d b q distinct fits found =
      Origin-cons items d a b r q fits.0 (
        unresolved_items-Origin items (after_item d a r) b q distinct.1
          (Fits-after_item items d a r distinct.0 fits.1) found)

All-get {ℓ} :
    (P : String × NodeScanResult → Type ℓ) (d : Results) (b : String) (r : NodeScanResult)
    → All P d
    → get d b ≡ some r
    → P (b, r)
unfolding get
All-get P [] b r h found = cc
All-get P ((j, u) ∷ d) b r h found = elim (Bool-cases (j == b)) [
  | inl e ↦
      let same : j ≡ b = (eq_iff j b).0 e in
      let new : u ≡ r = ground arith in subst (λ k. P (k, r)) same (subst (λ v. P (j, v)) new h.0)
  | inr e ↦ All-get P d b r h.1 (ground arith)
]

module _ (incoming : AdjacencyMap) (env : Env) (d : Results) (distinct : Distinct (keys d))
    (all : AllJustified incoming d) (facts : ReadyFacts incoming d d []) where
  abbrev final : Results
  final = unresolved_items env d d

  pub Step-final : Step d final
  Step-final = unresolved_items-Step env d d distinct (Fits-self d distinct)

  final-Origin : (b : String) (q : NodeScanResult) → get final b ≡ some q → Origin env d d b q
  final-Origin b q found = unresolved_items-Origin env d d b q distinct (Fits-self d distinct) found

  pending-skipped :
      (x : String) (r : NodeScanResult)
      → get d x ≡ some r
      → r.status ≡ pending
      → HasStatus final x skipped
  pending-skipped x r at_x p =
      let (q, found) = Step-final.present x (r, at_x) in
      elim (final-Origin x q found) [
        | inl (same, open_before) ↦ absurd (ground (arith, open_before (mem-get d x r at_x)))
        | inr (_, _, _, s) ↦ (q, found, s)
      ]

  -- What is not completed before the last pass has failed or is skipped after it.
  blocked_after :
      (x : String) (r : NodeScanResult) (s : NodeScanStatus)
      → get d x ≡ some r
      → r.status ≡ s
      → is_completed s ≡ false
      → IsJustified incoming d x s
      → HasStatus final x failed ⊎ HasStatus final x skipped
  blocked_after x r pending at_x e n why = inr (pending-skipped x r at_x e)
  blocked_after x r running at_x e n why = absurd why
  blocked_after x r completed at_x e n why = cc
  blocked_after x r failed at_x e n why = inl (Step-final.settled x failed refl (r, at_x, e))
  blocked_after x r skipped at_x e n why = inr (Step-final.settled x skipped refl (r, at_x, e))

  pub AllJustified-final : AllJustified incoming final
  unfolding mem
  AllJustified-final b q found = elim (final-Origin b q found) [
    | inl (before, _) ↦ Step-IsJustified incoming b q.status Step-final (all b q before)
    | inr (r, at_b, p, s) ↦
        let stuck =
          All-get
            (λ e.
              is_pending e.1.status ≡ true
              → mem e.0 [] ≡ false
              → all_completed d (dependencies incoming e.0) ≡ ok false)
            d b r facts.complete at_b p refl in
        let (x, m, r', at_x, n) = all_completed-false d (dependencies incoming b) stuck in
        rw s (x, m, blocked_after x r' r'.status at_x refl n (all x r' at_x))
  ]

  pub final-not-pending :
      (b : String) (q : NodeScanResult) → get final b ≡ some q → is_pending q.status ≡ false
  final-not-pending b q found = elim (final-Origin b q found) [
    | inl (before, h) ↦ h (mem-get d b q before)
    | inr (r, at_b, p, s) ↦ rw s refl
  ]

  pub HasStatus-final-completed :
      (b : String) → HasStatus final b completed → HasStatus d b completed
  HasStatus-final-completed b (q, found, s) = elim (final-Origin b q found) [
    | inl (before, h) ↦ (q, before, s)
    | inr (r, at_b, p, s') ↦ absurd (ground arith)
  ]
