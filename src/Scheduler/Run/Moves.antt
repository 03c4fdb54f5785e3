-- ===== src/Scheduler/Run/Moves.antt =====
-- Sequences of changes to pending nodes: what every step of the loop amounts to.
use chain_sentinel.Base.{
  ℕ, suc, ◌+◌, String, ◌≡◌, refl, sym, ap, ◌∙◌, subst, inl, inr, true, false, some, [], ◌∷◌, arith,
  ◌==◌, if◌then◌else◌, Bool-cases, get, put, keys, get-put, keys-put,
}
use chain_sentinel.Graph.{AdjacencyMap}
use chain_sentinel.Scheduler.Models.{NodeScanStatus, is_pending, NodeScanResult, Results}
use chain_sentinel.Scheduler.Run.Status.{
  HasStatus, Step, Step-refl, Step-trans, put-Step, IsJustified, AllJustified, put-AllJustified,
}

-- `pending_count`: how many nodes are pending.
unfoldable pub pending_count : Results → ℕ
pending_count [] = 0
pending_count ((a, r) ∷ d) = if is_pending r.status then suc (pending_count d) else pending_count d

put-pending_count :
    (d : Results) (a : String) (r r' : NodeScanResult)
    → get d a ≡ some r
    → is_pending r.status ≡ true
    → is_pending r'.status ≡ false
    → suc (pending_count (put d a r')) ≡ pending_count d
unfolding pending_count get put
put-pending_count [] a r r' h p n = cc
put-pending_count ((j, u) ∷ d) a r r' h p n = ground (arith, put-pending_count d a r r')

-- `n` nodes that were pending got a status of the kind `P` that their dependencies justify.
pub data Moves (incoming : AdjacencyMap) (P : NodeScanStatus → Type 0)
    : ℕ → Results → Results → Type 0 where
  stay : {d : Results} → Moves incoming P 0 d d
  move :
      {n : ℕ} {d d' : Results} (a : String) (r r' : NodeScanResult)
      → get d a ≡ some r
      → is_pending r.status ≡ true
      → is_pending r'.status ≡ false
      → IsJustified incoming d a r'.status
      → P r'.status
      → Moves incoming P n (put d a r') d'
      → Moves incoming P (suc n) d d'

module _ {incoming : AdjacencyMap} {P : NodeScanStatus → Type 0} where
  pub Moves-Step : {n : ℕ} {d d' : Results} → Moves incoming P n d d' → Step d d'
  Moves-Step stay = Step-refl _
  Moves-Step (move {d = e} a r r' found p n why ok_status m) =
      Step-trans (put-Step e a r r' found p) (Moves-Step m)

  pub Moves-AllJustified :
      {n : ℕ} {d d' : Results}
      → Moves incoming P n d d'
      → AllJustified incoming d
      → AllJustified incoming d'
  Moves-AllJustified stay h = h
  Moves-AllJustified (move {d = e} a r r' found p n why ok_status m) h =
      Moves-AllJustified m (put-AllJustified incoming e a r r' found p why h)

  pub Moves-keys : {n : ℕ} {d d' : Results} → Moves incoming P n d d' → keys d' ≡ keys d
  Moves-keys stay = refl
  Moves-keys (move {d = e} a r r' found p n why ok_status m) =
      Moves-keys m ∙ keys-put e a r r' found

  pub Moves-pending_count :
      {n : ℕ} {d d' : Results} → Moves incoming P n d d' → pending_count d' + n ≡ pending_count d
  Moves-pending_count stay = omega arith
  Moves-pending_count (move {d = e} a r r' found p n why ok_status m) =
      omega (arith, Moves-pending_count m, put-pending_count e a r r' found p n)

  pub Moves-trans :
      {m n k : ℕ} {d e f : Results}
      → Moves incoming P m d e
      → Moves incoming P n e f
      → m + n ≡ k
      → Moves incoming P k d f
  Moves-trans {n = n} {k = k} {f = f} (stay {d}) q s =
      let same : n ≡ k = omega arith in subst (λ i. Moves incoming P i d f) same q
  Moves-trans {n = n} {k = k} {d = d} {f = f} (move {n = l} a r r' found p o why ok_status m) q s =
      let last : suc (l + n) ≡ k = omega arith in
      subst (λ i. Moves incoming P i d f) last
        (move a r r' found p o why ok_status (Moves-trans m q refl))

  -- A status that is not of the kind was there before.
  pub Moves-HasStatus :
      {n : ℕ} {d d' : Results} (b : String) (s : NodeScanStatus)
      → ¬ P s
      → Moves incoming P n d d'
      → HasStatus d' b s
      → HasStatus d b s
  Moves-HasStatus b s other stay h = h
  Moves-HasStatus b s other (move {d = e} a r r' found p n why ok_status m) h =
      let (q, at_b, same) = Moves-HasStatus b s other m h in
      elim (Bool-cases (a == b)) [
        | inl here ↦
            let new : q ≡ r' = ground (arith, get-put e a b r') in
            absurd
              (other (subst P (ap (λ (x : NodeScanResult). x.status) (sym new) ∙ same) ok_status))
        | inr there ↦ (q, ground (arith, get-put e a b r'), same)
      ]
