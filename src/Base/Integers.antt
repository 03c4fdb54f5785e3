-- ===== src/Base/Integers.antt =====
-- Integers over the native numbers: an amount with two decimals is its number of hundredths.
use Prim.Native.Nat.{ℕ, zero, suc, ◌+◌, ◌-◌}
use mathlib.Core.Bool.{Bool, true, false}
use chain_sentinel.Base.Tests.{leb, eqb, if◌then◌else◌}
use mathlib.Core.Path.{◌≡◌}
use native.Mathlib.Omega.{arith}

-- `negsuc n` is -(n + 1).
pub data ℤ : Type 0 where
  pos negsuc : ℕ → ℤ

-- `a - b` of natural numbers
unfoldable pub difference : ℕ → ℕ → ℤ
difference a b = if leb b a then pos (a - b) else negsuc (b - a - 1)

infixl 60 ◌+ℤ◌ ◌-ℤ◌
unfoldable pub ◌+ℤ◌ : ℤ → ℤ → ℤ
unfolding difference
pos a +ℤ pos b = pos (a + b)
pos a +ℤ negsuc b = difference a (suc b)
negsuc a +ℤ pos b = difference b (suc a)
negsuc a +ℤ negsuc b = negsuc (suc (a + b))

unfoldable pub neg : ℤ → ℤ
neg (pos zero) = pos zero
neg (pos (suc n)) = negsuc n
neg (negsuc n) = pos (suc n)

unfoldable pub ◌-ℤ◌ : ℤ → ℤ → ℤ
unfolding ◌+ℤ◌ neg
a -ℤ b = a +ℤ neg b

-- `a <= b`, `a == b`
abbrev pub le_int : ℤ → ℤ → Bool
le_int (pos a) (pos b) = leb a b
le_int (pos a) (negsuc b) = false
le_int (negsuc a) (pos b) = true
le_int (negsuc a) (negsuc b) = leb b a

abbrev pub eq_int : ℤ → ℤ → Bool
eq_int (pos a) (pos b) = eqb a b
eq_int (negsuc a) (negsuc b) = eqb a b
eq_int _ _ = false

pub add_int_zero : (a : ℤ) → a +ℤ pos 0 ≡ a
unfolding ◌+ℤ◌ difference
add_int_zero (pos n) = ground arith
add_int_zero (negsuc n) = ground arith

-- Adding keeps or raises, and keeps the order.
pub le_int_add : (a b : ℤ) → le_int (pos 0) b ≡ true → le_int a (a +ℤ b) ≡ true
unfolding ◌+ℤ◌ difference
le_int_add (pos m) (pos n) h = ground arith
le_int_add (pos m) (negsuc n) h = cc
le_int_add (negsuc m) (pos n) h = ground arith
le_int_add (negsuc m) (negsuc n) h = cc

pub le_int_refl : (a : ℤ) → le_int a a ≡ true
le_int_refl (pos m) = ground arith
le_int_refl (negsuc m) = ground arith
