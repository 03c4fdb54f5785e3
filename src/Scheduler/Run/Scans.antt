-- ===== src/Scheduler/Run/Scans.antt =====
-- What the scans over a node's dependencies compute.
use chain_sentinel.Base.{
  String, ◌≡◌, refl, inl, inr, Bool, true, false, some, List, [], ◌∷◌, arith, ◌==◌, eq_iff,
  if◌then◌else◌, Bool-cases, Option-cases, mem, get, ok,
}
use chain_sentinel.Scheduler.Models.{
  NodeScanStatus, completed, failed, is_completed, is_failed, NodeScanResult, Results,
}
use chain_sentinel.Scheduler.Run.{any_failed, all_completed}
use chain_sentinel.Scheduler.Run.Status.{HasStatus, IsPresent}

abbrev pub AllPresent : Results → List String → Type 0
AllPresent d xs = (x : String) → mem x xs ≡ true → IsPresent d x

tail_present :
    (d : Results) (x : String) (xs : List String) → AllPresent d (x ∷ xs) → AllPresent d xs
unfolding mem
tail_present d x xs h = λ y m. h y (ground arith)

head-IsPresent :
    (d : Results) (x : String) (xs : List String) → AllPresent d (x ∷ xs) → IsPresent d x
unfolding mem
head-IsPresent d x xs h = h x (ground (arith, eq_iff x x))

pub any_failed_total :
    (d : Results) (xs : List String) → AllPresent d xs → (b : Bool) × (any_failed d xs ≡ ok b)
unfolding any_failed
any_failed_total d [] h = (false, refl)
any_failed_total d (x ∷ xs) h =
    let (r, found) = head-IsPresent d x xs h in
    let (b, rest) = any_failed_total d xs (tail_present d x xs h) in
    (if is_failed r.status then true else b, ground arith)

pub all_completed_total :
    (d : Results) (xs : List String) → AllPresent d xs → (b : Bool) × (all_completed d xs ≡ ok b)
unfolding all_completed
all_completed_total d [] h = (true, refl)
all_completed_total d (x ∷ xs) h =
    let (r, found) = head-IsPresent d x xs h in
    let (b, rest) = all_completed_total d xs (tail_present d x xs h) in
    (if is_completed r.status then b else false, ground arith)

is_failed_status : (s : NodeScanStatus) → is_failed s ≡ true → s ≡ failed
is_failed_status s h = ground arith

is_completed_status : (s : NodeScanStatus) → is_completed s ≡ true → s ≡ completed
is_completed_status s h = ground arith

pub any_failed-true :
    (d : Results) (xs : List String)
    → any_failed d xs ≡ ok true
    → (x : String) × (mem x xs ≡ true) × HasStatus d x failed
unfolding any_failed mem
any_failed-true d [] h = cc
any_failed-true d (x ∷ xs) h = elim (Option-cases (get d x)) [
  | inl e ↦ absurd (ground arith)
  | inr (r, e) ↦ elim (Bool-cases (is_failed r.status)) [
    | inl f ↦ (x, ground (arith, eq_iff x x), (r, e, is_failed_status r.status f))
    | inr f ↦ let (y, m, s) = any_failed-true d xs (ground arith) in (y, ground arith, s)
  ]
]

pub all_completed-true :
    (d : Results) (xs : List String)
    → all_completed d xs ≡ ok true
    → (x : String) → mem x xs ≡ true
    → HasStatus d x completed
unfolding all_completed mem
all_completed-true d [] h x m = cc
all_completed-true d (y ∷ ys) h x m = elim (Option-cases (get d y)) [
  | inl e ↦ absurd (ground arith)
  | inr (r, e) ↦ elim (Bool-cases (x == y)) [
    | inl same ↦ (r, ground (arith, eq_iff x y), ground arith)
    | inr other ↦ all_completed-true d ys (ground arith) x (ground arith)
  ]
]

pub all_completed-false :
    (d : Results) (xs : List String)
    → all_completed d xs ≡ ok false
    → (x : String) × (mem x xs ≡ true)
      × (r : NodeScanResult) × (get d x ≡ some r)
      × (is_completed r.status ≡ false)
unfolding all_completed mem
all_completed-false d [] h = cc
all_completed-false d (y ∷ ys) h = elim (Option-cases (get d y)) [
  | inl e ↦ absurd (ground arith)
  | inr (r, e) ↦ elim (Bool-cases (is_completed r.status)) [
    | inl f ↦
        let (x, m, q, at_x, f') = all_completed-false d ys (ground arith) in
        (x, ground arith, q, at_x, f')
    | inr f ↦ (y, ground (arith, eq_iff y y), r, e, f)
  ]
]
