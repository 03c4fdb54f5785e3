-- ===== src/Scheduler/Run/Skips.antt =====
-- The pass that skips the nodes whose dependency failed.
use chain_sentinel.Base.{
  ℕ, ◌+◌, String, ◌≡◌, refl, ◌⊎◌, inl, inr, true, false, some, [], ◌∷◌, arith, Bool-cases, mem, get,
  put, keys, ok, Distinct, Fits, Fits-put,
}
use chain_sentinel.Graph.{AdjacencyMap}
use chain_sentinel.Scheduler.Models.{NodeScanStatus, skipped, is_pending, NodeScanResult, Results}
use chain_sentinel.Scheduler.Incoming.{dependencies}
use chain_sentinel.Scheduler.Worker.{Env, skip}
use chain_sentinel.Scheduler.Run.{skip_item, skip_items, any_failed}
use chain_sentinel.Scheduler.Run.Status.{Step}
use chain_sentinel.Scheduler.Run.Moves.{Moves, stay, move, Moves-trans, Moves-Step}
use chain_sentinel.Scheduler.Run.Scans.{AllPresent, any_failed_total, any_failed-true}

abbrev pub IsSkip : NodeScanStatus → Type 0
IsSkip s = s ≡ skipped

module _ (incoming : AdjacencyMap) where
  -- Every dependency is a node.
  abbrev pub AllKnown : Results → Type 0
  AllKnown d = (a : String) → AllPresent d (dependencies incoming a)

  pub AllKnown-Step : {d d' : Results} → Step d d' → AllKnown d → AllKnown d'
  AllKnown-Step st known = λ a x h. st.present x (known a x h)

  module _ (env : Env) where
    skip-move :
        (d : Results) (a : String) (r : NodeScanResult)
        → get d a ≡ some r
        → is_pending r.status ≡ true
        → any_failed d (dependencies incoming a) ≡ ok true
        → Moves incoming IsSkip 1 d (put d a (skip env a "dependency_failed"))
    unfolding skip
    skip-move d a r found p h =
        let (x, m, s) = any_failed-true d (dependencies incoming a) h in
        move a r (skip env a "dependency_failed") found p refl (x, m, inl s) refl stay

    -- A pass makes moves, leaves the other nodes alone, and raises nothing.
    skip_item-Moves :
        (d : Results) (a : String) (r : NodeScanResult)
        → get d a ≡ some r
        → AllKnown d
        → (n : ℕ) × (d' : Results) × (skip_item incoming env d a r ≡ ok d')
          × Moves incoming IsSkip n d d'
          × ((d' ≡ d) ⊎ (d' ≡ put d a (skip env a "dependency_failed")))
    unfolding skip_item
    skip_item-Moves d a r found known = elim (Bool-cases (is_pending r.status)) [
      | inl p ↦
          let (b, got) = any_failed_total d (dependencies incoming a) (known a) in
          elim (Bool-cases b) [
            | inl e ↦ (
              1,
              put d a (skip env a "dependency_failed"),
              ground arith,
              skip-move d a r found p (rw e at got),
              inr refl,
            )
            | inr e ↦ (0, d, ground arith, stay, inl refl)
          ]
      | inr p ↦ (0, d, ground arith, stay, inl refl)
    ]

    Fits-skip_item :
        (items d d' : Results) (a : String)
        → (d' ≡ d) ⊎ (d' ≡ put d a (skip env a "dependency_failed"))
        → mem a (keys items) ≡ false
        → Fits items d
        → Fits items d'
    Fits-skip_item items d d' a (inl e) absent h = rw e h
    Fits-skip_item items d d' a (inr e) absent h = rw e (Fits-put items d a _ absent h)

    pub skip_items-Moves :
        (items d : Results)
        → Distinct (keys items)
        → Fits items d
        → AllKnown d
        → (n : ℕ) × (d' : Results) × (skip_items incoming env items d ≡ ok d')
          × Moves incoming IsSkip n d d'
    unfolding skip_items
    skip_items-Moves [] d distinct fits known = (0, d, refl, stay)
    skip_items-Moves ((a, r) ∷ items) d distinct fits known =
        let (n, e, first, m, change) = skip_item-Moves d a r fits.0 known in
        let (k, f, rest, m') =
          skip_items-Moves items e distinct.1 (Fits-skip_item items d e a change distinct.0 fits.1)
            (AllKnown-Step (Moves-Step m) known) in
        (n + k, f, rw first rest, Moves-trans m m' refl)
