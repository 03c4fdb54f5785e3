-- ===== src/Base/Sets.antt =====
-- Python's `set` of texts, as a list without repetition, and `in`.
use Prim.Native.String.{String}
use mathlib.Core.Path.{◌≡◌, refl}
use mathlib.Core.Bool.{Bool, true, false, ◌||◌, not}
use Prim.Native.Nat.{◌≤◌, ◌<◌}
use chain_sentinel.Base.Lists.{length, filter, length-filter-le}
use mathlib.Core.List.{List, [], ◌∷◌, ◌++◌}
use native.Mathlib.Omega.{arith}
use text.Mathlib.Text.{◌==◌}
use text.Mathlib.TextEquality.{eq_iff}
use chain_sentinel.Base.Tests.{if◌then◌else◌, Bool-cases}
use mathlib.Core.Logic.{inl, inr}
use chain_sentinel.Base.Text.{text_le}
use chain_sentinel.Base.Sort.{insert_sorted, sort_by}

-- `x in xs`
unfoldable pub mem : String → List String → Bool
mem x [] = false
mem x (y ∷ ys) = x == y || mem x ys

-- `s.add(x)`
unfoldable pub add : String → List String → List String
unfolding mem
add x xs = if mem x xs then xs else xs ++ x ∷ []

pub mem-append : (x : String) (xs ys : List String) → mem x (xs ++ ys) ≡ (mem x xs || mem x ys)
unfolding mem
mem-append x [] ys = refl
mem-append x (y ∷ xs) ys = ground (arith, mem-append x xs ys)

pub mem-add : (x y : String) (xs : List String) → mem x (add y xs) ≡ (x == y || mem x xs)
unfolding add
mem-add x y xs = ground (arith, mem-append x xs (y ∷ []), eq_iff x y)

mem-insert_sorted :
    (x y : String) (ys : List String) → mem x (insert_sorted text_le y ys) ≡ (x == y || mem x ys)
unfolding mem insert_sorted
mem-insert_sorted x y [] = refl
mem-insert_sorted x y (z ∷ ys) = ground (arith, mem-insert_sorted x y ys)

pub mem-sorted : (x : String) (xs : List String) → mem x (sort_by text_le xs) ≡ mem x xs
unfolding mem sort_by
mem-sorted x [] = refl
mem-sorted x (y ∷ xs) = ground (arith, mem-insert_sorted x y (sort_by text_le xs), mem-sorted x xs)

-- No text twice.
abbrev pub Distinct : List String → Type 0
Distinct [] = Unit
Distinct (x ∷ xs) = (mem x xs ≡ false) × Distinct xs

pub Distinct-snoc :
    (xs : List String) (a : String) → Distinct xs → mem a xs ≡ false → Distinct (xs ++ a ∷ [])
unfolding mem
Distinct-snoc [] a d m = (refl, tt)
Distinct-snoc (x ∷ xs) a d m = (
  ground (arith, mem-append x xs (a ∷ []), eq_iff a x, eq_iff x a),
  Distinct-snoc xs a d.1 (ground arith),
)

Distinct-insert_sorted :
    (x : String) (ys : List String)
    → Distinct ys
    → mem x ys ≡ false
    → Distinct (insert_sorted text_le x ys)
unfolding mem insert_sorted
Distinct-insert_sorted x [] d m = (refl, tt)
Distinct-insert_sorted x (y ∷ ys) d m = elim (Bool-cases (text_le x y)) [
  | inl e ↦ rw e (m, d)
  | inr e ↦ rw e (
    ground (arith, mem-insert_sorted y x ys, eq_iff x y, eq_iff y x),
    Distinct-insert_sorted x ys d.1 (ground arith),
  )
]

pub Distinct-sorted : (xs : List String) → Distinct xs → Distinct (sort_by text_le xs)
unfolding mem sort_by
Distinct-sorted [] d = tt
Distinct-sorted (x ∷ xs) d =
    Distinct-insert_sorted x (sort_by text_le xs) (Distinct-sorted xs d.1)
      (rw (mem-sorted x xs) d.0)

-- Every text of the first list is in the second.
abbrev pub Within : List String → List String → Type 0
Within xs ys = (a : String) → mem a xs ≡ true → mem a ys ≡ true

abbrev without : String → List String → List String
without x ys = filter (λ y. not (y == x)) ys

mem-without :
    (x a : String) (ys : List String)
    → mem a ys ≡ true
    → (a == x) ≡ false
    → mem a (without x ys) ≡ true
unfolding mem
mem-without x a [] m ne = cc
mem-without x a (y ∷ ys) m ne =
    ground (arith, mem-without x a ys, eq_iff a y, eq_iff y x, eq_iff a x)

length-without-lt :
    (x : String) (ys : List String) → mem x ys ≡ true → length (without x ys) < length ys
unfolding mem
length-without-lt x [] m = cc
length-without-lt x (y ∷ ys) m =
    ground (
      arith,
      length-without-lt x ys,
      length-filter-le (λ z. not (z == x)) ys,
      eq_iff x y,
      eq_iff y x,
    )

-- Different texts of a list are at most as many as the list has.
pub length-Within : (xs ys : List String) → Distinct xs → Within xs ys → length xs ≤ length ys
unfolding mem
length-Within [] ys d within = omega arith
length-Within (x ∷ xs) ys d within =
    let in_ys = within x (ground (arith, eq_iff x x)) in
    let rest =
      length-Within xs (without x ys) d.1
        (λ a m. mem-without x a ys (within a (ground arith)) (ground (arith, eq_iff a x))) in
    omega (arith, length-without-lt x ys in_ys)

pub add-new :
    (xs ys : List String) (x : String) → mem x ys ≡ false → xs ≡ ys → xs ++ x ∷ [] ≡ add x ys
unfolding add
add-new xs ys x new same = rw (new, same) refl
