-- ===== src/Base/Keyed.antt =====
-- Sorting items by any order keeps the texts that a function gives them, and that these differ.
use Prim.Native.String.{String}
use mathlib.Core.Path.{◌≡◌, refl}
use mathlib.Core.Logic.{inl, inr}
use mathlib.Core.Bool.{Bool, false, ◌||◌, ◌&&◌}
use chain_sentinel.Base.Lists.{filter}
use mathlib.Core.List.{List, [], ◌∷◌, map}
use native.Mathlib.Omega.{arith}
use text.Mathlib.Text.{◌==◌}
use text.Mathlib.TextEquality.{eq_iff}
use chain_sentinel.Base.Tests.{Bool-cases}
use chain_sentinel.Base.Sort.{insert_sorted, sort_by}
use chain_sentinel.Base.Sets.{mem, Distinct}

module _ {A : Type 0} (f : A → String) (le : A → A → Bool) where
  mem-insert_sorted_key :
      (k : String) (x : A) (xs : List A)
      → mem k (map f (insert_sorted le x xs)) ≡ (k == f x || mem k (map f xs))
  unfolding mem insert_sorted
  mem-insert_sorted_key k x [] = refl
  mem-insert_sorted_key k x (y ∷ xs) = ground (arith, mem-insert_sorted_key k x xs)

  pub mem-sort_by_key :
      (k : String) (xs : List A) → mem k (map f (sort_by le xs)) ≡ mem k (map f xs)
  unfolding mem sort_by
  mem-sort_by_key k [] = refl
  mem-sort_by_key k (x ∷ xs) =
      ground (arith, mem-insert_sorted_key k x (sort_by le xs), mem-sort_by_key k xs)

  Distinct-insert_sorted_key :
      (x : A) (xs : List A)
      → Distinct (map f xs)
      → mem (f x) (map f xs) ≡ false
      → Distinct (map f (insert_sorted le x xs))
  unfolding mem insert_sorted
  Distinct-insert_sorted_key x [] d m = (refl, tt)
  Distinct-insert_sorted_key x (y ∷ xs) d m = elim (Bool-cases (le x y)) [
    | inl e ↦ rw e (m, d)
    | inr e ↦ rw e (
      ground (arith, mem-insert_sorted_key (f y) x xs, eq_iff (f x) (f y), eq_iff (f y) (f x)),
      Distinct-insert_sorted_key x xs d.1 (ground arith),
    )
  ]

  pub Distinct-sort_by_key : (xs : List A) → Distinct (map f xs) → Distinct (map f (sort_by le xs))
  unfolding mem sort_by
  Distinct-sort_by_key [] d = tt
  Distinct-sort_by_key (x ∷ xs) d =
      Distinct-insert_sorted_key x (sort_by le xs) (Distinct-sort_by_key xs d.1)
        (rw (mem-sort_by_key (f x) xs) d.0)

-- Filtering by a test of the text.
module _ {A : Type 0} (f : A → String) (q : String → Bool) where
  pub mem-filter_key :
      (k : String) (xs : List A)
      → mem k (map f (filter (λ x. q (f x)) xs)) ≡ (mem k (map f xs) && q k)
  unfolding mem
  mem-filter_key k [] = refl
  mem-filter_key k (x ∷ xs) = ground (arith, mem-filter_key k xs, eq_iff k (f x))

  pub Distinct-filter_key :
      (xs : List A) → Distinct (map f xs) → Distinct (map f (filter (λ x. q (f x)) xs))
  unfolding mem
  Distinct-filter_key [] d = tt
  Distinct-filter_key (x ∷ xs) d = elim (Bool-cases (q (f x))) [
    | inl e ↦ rw e (ground (arith, mem-filter_key (f x) xs), Distinct-filter_key xs d.1)
    | inr e ↦ rw e (Distinct-filter_key xs d.1)
  ]
