-- ===== src/Base/Results.antt =====
-- Calls that may raise: a value, or the exception.
use mathlib.Core.Path.{◌≡◌, refl}
use mathlib.Core.List.{List, [], ◌∷◌}

pub data Result {ℓ} (E : Type 0) (A : Type ℓ) : Type ℓ where
  ok : A → Result E A
  err : E → Result E A

module _ {ℓ κ} {E : Type 0} {A : Type ℓ} {B : Type κ} where
  -- The exception stops the rest.
  infixl 5 ◌>>=◌ ◌>>◌
  abbrev pub ◌>>=◌ : Result E A → (A → Result E B) → Result E B
  err raised >>= rest = err raised
  ok value >>= rest = rest value

  abbrev pub ◌>>◌ : Result E A → Result E B → Result E B
  first >> second = first >>= λ _. second

-- Where a whole chain returns, its first call did.
pub >>=-eq-ok {ℓ κ} :
    {E : Type 0} {A : Type ℓ} {B : Type κ} {last : B} (call : Result E A) (rest : A → Result E B)
    → (call >>= rest) ≡ ok last
    → (value : A) × (call ≡ ok value) × (rest value ≡ ok last)
>>=-eq-ok (err raised) rest returns = cc
>>=-eq-ok (ok value) rest returns = (value, refl, returns)

-- The calls in order, up to the first that raises.
module _ {ℓ κ} {E : Type 0} {A : Type ℓ} {B : Type κ} where
  unfoldable pub map_result : (A → Result E B) → List A → Result E (List B)
  map_result f [] = ok []
  map_result f (x ∷ xs) = do y ← f x; ys ← map_result f xs; ok (y ∷ ys)
