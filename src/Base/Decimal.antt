-- ===== src/Base/Decimal.antt =====
-- `str(n)` of a natural number, and joining texts.
use Prim.Native.Nat.{ℕ, zero, suc, ◌/◌, ◌%◌}
use Prim.Native.String.{String, char_at}
use Prim.Native.String
use mathlib.Core.Path.{◌≡◌, refl}
use mathlib.Core.List.{List, [], ◌∷◌}
use chain_sentinel.Base.Tests.{ltb, if◌then◌else◌}

infixr 66 ◌⧺◌
-- `a + b` of texts
abbrev pub ◌⧺◌ : String → String → String
a ⧺ b = String.◌++◌ a b

digit : ℕ → String
digit n = String.◌∷◌ (char_at "0123456789" n) String.[]

-- The digits of `n`, for more fuel than digits.
decimal_from : ℕ → ℕ → String
unfolding digit
decimal_from zero n = ""
decimal_from (suc fuel) n =
    let rest = decimal_from fuel (n / 10) ⧺ digit (n % 10) in if ltb n 10 then digit n else rest

-- A number has at most as many digits as its value plus one.
unfoldable pub decimal : ℕ → String
unfolding decimal_from
decimal n = decimal_from (suc n) n

decimal_runs : decimal 11155 ≡ "11155"
unfolding decimal
decimal_runs = refl

-- `sep.join(xs)`
unfoldable pub join : String → List String → String
join sep [] = ""
join sep (x ∷ []) = x
join sep (x ∷ y ∷ xs) = x ⧺ sep ⧺ join sep (y ∷ xs)
