-- ===== src/Base/Dicts.antt =====
-- Python's `dict` with text keys, in insertion order.
use Prim.Native.String.{String}
use mathlib.Core.Bool.{true, false, ◌||◌}
use mathlib.Core.Path.{◌≡◌, refl}
use mathlib.Core.List.{List, [], ◌∷◌, map}
use mathlib.Core.Option.{Option, none, some}
use native.Mathlib.Omega.{arith}
use text.Mathlib.Text.{◌==◌}
use text.Mathlib.TextEquality.{eq_iff}
use chain_sentinel.Base.Sets.{mem, Distinct}
use chain_sentinel.Base.Tests.{if◌then◌else◌, Bool-cases}
use chain_sentinel.Base.Lists.{All}
use mathlib.Core.Logic.{inl, inr}

abbrev pub Dict {ℓ} : Type ℓ → Type ℓ
Dict V = List (String × V)

module _ {ℓ} {V : Type ℓ} where
  -- `d.get(k)`
  unfoldable pub get : Dict V → String → Option V
  get [] k = none
  get ((j, v) ∷ d) k = if j == k then some v else get d k

  -- `d[k] = v`: in place if the key is there, else at the end.
  unfoldable pub put : Dict V → String → V → Dict V
  put [] k v = (k, v) ∷ []
  put ((j, w) ∷ d) k v = if j == k then (j, v) ∷ d else (j, w) ∷ put d k v

  -- `d.pop(k, None)`, without the value.
  unfoldable pub remove : Dict V → String → Dict V
  remove [] k = []
  remove ((j, w) ∷ d) k = if j == k then remove d k else (j, w) ∷ remove d k

  abbrev pub keys : Dict V → List String
  keys d = map (λ e. e.0) d

  abbrev pub values : Dict V → List V
  values d = map (λ e. e.1) d

  pub get-put :
      (d : Dict V) (at k : String) (v : V)
      → get (put d at v) k ≡ (if at == k then some v else get d k)
  unfolding put get
  get-put [] at k v = refl
  get-put ((i, w) ∷ d) at k v =
      ground (arith, eq_iff at k, eq_iff i at, eq_iff i k, get-put d at k v)

  pub get-remove :
      (d : Dict V) (k j : String) → get (remove d k) j ≡ (if k == j then none else get d j)
  unfolding get remove
  get-remove [] k j = ground arith
  get-remove ((i, w) ∷ d) k j = ground (arith, eq_iff k j, eq_iff i k, eq_iff i j, get-remove d k j)

pub ruleset dict_laws = (get-put, get-remove)

module _ {ℓ} {V : Type ℓ} where
  -- The entries of `items` are what the dictionary holds at their keys.
  abbrev pub Fits : Dict V → Dict V → Type ℓ
  Fits items d = All (λ e. get d e.0 ≡ some e.1) items

  Fits-cons :
      (items d : Dict V) (j : String) (v : V)
      → mem j (keys items) ≡ false
      → Fits items d
      → Fits items ((j, v) ∷ d)
  unfolding mem get
  Fits-cons [] d j v absent h = tt
  Fits-cons ((k, w) ∷ items) d j v absent h =
      (ground (arith, eq_iff j k), Fits-cons items d j v (ground arith) h.1)

  pub Fits-self : (d : Dict V) → Distinct (keys d) → Fits d d
  unfolding get
  Fits-self [] h = tt
  Fits-self ((j, v) ∷ d) h = (ground (arith, eq_iff j j), Fits-cons d d j v h.0 (Fits-self d h.1))

  pub Fits-put :
      (items d : Dict V) (a : String) (v : V)
      → mem a (keys items) ≡ false
      → Fits items d
      → Fits items (put d a v)
  unfolding mem
  Fits-put [] d a v absent h = tt
  Fits-put ((k, w) ∷ items) d a v absent h =
      (ground (arith, get-put d a k v), Fits-put items d a v (ground arith) h.1)

  -- A new value for a key that is there leaves the keys as they are.
  pub keys-put : (d : Dict V) (a : String) (v w : V) → get d a ≡ some v → keys (put d a w) ≡ keys d
  unfolding get put
  keys-put [] a v w h = cc
  keys-put ((j, u) ∷ d) a v w h = ground (arith, keys-put d a v w)

  pub mem-keys-put :
      (d : Dict V) (a b : String) (w : V) → mem b (keys (put d a w)) ≡ (b == a || mem b (keys d))
  unfolding put mem
  mem-keys-put [] a b w = refl
  mem-keys-put ((j, u) ∷ d) a b w =
      ground (arith, mem-keys-put d a b w, eq_iff j a, eq_iff b a, eq_iff b j)

  pub Distinct-put :
      (d : Dict V) (a : String) (w : V) → Distinct (keys d) → Distinct (keys (put d a w))
  unfolding put mem
  Distinct-put [] a w h = (refl, tt)
  Distinct-put ((j, u) ∷ d) a w h = elim (Bool-cases (j == a)) [
    | inl e ↦ rw e h
    | inr e ↦ rw e (ground (arith, mem-keys-put d a j w, eq_iff j a), Distinct-put d a w h.1)
  ]

  pub get-mem : (d : Dict V) (a : String) → mem a (keys d) ≡ true → (v : V) × (get d a ≡ some v)
  unfolding get mem
  get-mem [] a m = cc
  get-mem ((j, u) ∷ d) a m = elim (Bool-cases (j == a)) [
    | inl e ↦ (u, rw e refl)
    | inr e ↦
        let (v, found) = get-mem d a (ground (arith, eq_iff a j, eq_iff j a)) in (v, rw e found)
  ]

  pub mem-get : (d : Dict V) (a : String) (v : V) → get d a ≡ some v → mem a (keys d) ≡ true
  unfolding get mem
  mem-get [] a v h = cc
  mem-get ((j, u) ∷ d) a v h = ground (arith, mem-get d a v, eq_iff a j, eq_iff j a)
