-- ===== src/Base/Sort.antt =====
-- `sorted`, for any Boolean order: a stable insertion sort.
use Prim.Native.Nat.{suc}
use Prim.Native.String.{String}
use mathlib.Core.Path.{◌≡◌, refl}
use mathlib.Core.Bool.{Bool}
use mathlib.Core.List.{List, [], ◌∷◌}
use native.Mathlib.Omega.{arith}
use chain_sentinel.Base.Tests.{if◌then◌else◌, Bool-cases}
use mathlib.Core.Logic.{inl, inr}
use chain_sentinel.Base.Lists.{length, All}
use chain_sentinel.Base.Text.{text_le}

module _ {ℓ} {A : Type ℓ} (le : A → A → Bool) where
  -- Before the first item that is not smaller, so equal items keep their order.
  unfoldable pub insert_sorted : A → List A → List A
  insert_sorted x [] = x ∷ []
  insert_sorted x (y ∷ ys) = if le x y then x ∷ y ∷ ys else y ∷ insert_sorted x ys

  unfoldable pub sort_by : List A → List A
  unfolding insert_sorted
  sort_by [] = []
  sort_by (x ∷ xs) = insert_sorted x (sort_by xs)

  length-insert_sorted : (x : A) (xs : List A) → length (insert_sorted x xs) ≡ suc (length xs)
  unfolding insert_sorted
  length-insert_sorted x [] = refl
  length-insert_sorted x (y ∷ ys) = ground (arith, length-insert_sorted x ys)

  pub length-sort_by : (xs : List A) → length (sort_by xs) ≡ length xs
  unfolding sort_by
  length-sort_by [] = refl
  length-sort_by (x ∷ xs) = ground (arith, length-insert_sorted x (sort_by xs), length-sort_by xs)

module _ {ℓ κ} {A : Type ℓ} (P : A → Type κ) (le : A → A → Bool) where
  All-insert_sorted : (x : A) (xs : List A) → P x → All P xs → All P (insert_sorted le x xs)
  unfolding insert_sorted
  All-insert_sorted x [] p ps = (p, tt)
  All-insert_sorted x (y ∷ xs) p ps = elim (Bool-cases (le x y)) [
    | inl e ↦ rw e (p, ps)
    | inr e ↦ rw e (ps.0, All-insert_sorted x xs p ps.1)
  ]

  pub All-sort_by : (xs : List A) → All P xs → All P (sort_by le xs)
  unfolding sort_by
  All-sort_by [] ps = tt
  All-sort_by (x ∷ xs) ps = All-insert_sorted x (sort_by le xs) ps.0 (All-sort_by xs ps.1)

  All-uninsert : (x : A) (xs : List A) → All P (insert_sorted le x xs) → P x × All P xs
  unfolding insert_sorted
  All-uninsert x [] h = h
  All-uninsert x (y ∷ xs) h = elim (Bool-cases (le x y)) [
    | inl e ↦ rw e at h
    | inr e ↦
        let h' = rw e at h in let (first, rest) = All-uninsert x xs h'.1 in (first, (h'.0, rest))
  ]

  pub All-unsort : (xs : List A) → All P (sort_by le xs) → All P xs
  unfolding sort_by
  All-unsort [] h = tt
  All-unsort (x ∷ xs) h =
      let (first, rest) = All-uninsert x (sort_by le xs) h in (first, All-unsort xs rest)

-- `sorted(xs)` of texts.
abbrev pub sorted : List String → List String
sorted = sort_by text_le
