-- ===== src/Base/Text.antt =====
-- Texts as Python compares them: by code points, and `lower` on ASCII.
use Prim.Native.Nat.{ℕ, zero, suc, ◌-◌, ◌<◌, Ordering}
use Prim.Native.Char.{Char, code}
use Prim.Native.String.{String, compare, char_at}
use mathlib.Core.Path.{◌≡◌, refl, sym, ap, ◌∙◌, subst}
use mathlib.Core.Bool.{Bool, true, false, ◌&&◌}
use mathlib.Core.Logic.{inl, inr}
use mathlib.Core.List.{List, [], ◌∷◌}
use native.Mathlib.Omega.{arith}
use text.Mathlib.Text.{◌==◌}
use text.Mathlib.TextEquality.{eq_iff}
use chain_sentinel.Base.Tests.{leb, leb→le, &&-true, Bool-cases, if◌then◌else◌}

-- `s <= t`
abbrev pub text_le : String → String → Bool
text_le s t = elim (compare s t) [ Ordering.gt ↦ false | _ ↦ true ]

-- Tuples of two texts, and lists of texts, in Python's order.
abbrev pub pair_le : String × String → String × String → Bool
pair_le (a, b) (c, d) = if a == c then text_le b d else text_le a c

abbrev pub texts_le : List String → List String → Bool
texts_le [] t = true
texts_le (x ∷ s) [] = false
texts_le (x ∷ s) (y ∷ t) = if x == y then texts_le s t else text_le x y

pub eq_sym : (s t : String) → (s == t) ≡ (t == s)
eq_sym s t = ground (arith, eq_iff s t, eq_iff t s)

-- `s.lower()` of an ASCII character: 65 to 90 are the capitals.
unfoldable pub lower_char : Char → Char
lower_char c =
    if leb 65 (code c) && leb (code c) 90
    then char_at "abcdefghijklmnopqrstuvwxyz" (code c - 65)
    else c

unfoldable pub lower : String → String
unfolding lower_char
lower String.[] = String.[]
lower (String.◌∷◌ c s) = String.◌∷◌ (lower_char c) (lower s)

-- Each of the first letters is in lower case.
Lowered : ℕ → Type 0
Lowered zero = Unit
Lowered (suc n) =
    (lower_char (char_at "abcdefghijklmnopqrstuvwxyz" n) ≡ char_at "abcdefghijklmnopqrstuvwxyz" n)
    × Lowered n

letters-Lowered : Lowered 26
unfolding Lowered lower_char
letters-Lowered = (
  refl,
  (
    refl,
    (
      refl,
      (
        refl,
        (
          refl,
          (
            refl,
            (
              refl,
              (
                refl,
                (
                  refl,
                  (
                    refl,
                    (
                      refl,
                      (
                        refl,
                        (
                          refl,
                          (
                            refl,
                            (
                              refl,
                              (
                                refl,
                                (
                                  refl,
                                  (
                                    refl,
                                    (
                                      refl,
                                      (refl, (refl, (refl, (refl, (refl, (refl, (refl, tt))))))),
                                    ),
                                  ),
                                ),
                              ),
                            ),
                          ),
                        ),
                      ),
                    ),
                  ),
                ),
              ),
            ),
          ),
        ),
      ),
    ),
  ),
)

Lowered-at :
    (n k : ℕ)
    → Lowered n
    → k < n
    → lower_char (char_at "abcdefghijklmnopqrstuvwxyz" k) ≡ char_at "abcdefghijklmnopqrstuvwxyz" k
unfolding Lowered
Lowered-at zero k h le = absurd (omega (arith, le))
Lowered-at (suc n) k h le = elim (Bool-cases (leb n k)) [
  | inl last ↦
      let now : n ≡ k = omega (arith, le, leb→le n k last) in
      subst
        (λ j.
          lower_char (char_at "abcdefghijklmnopqrstuvwxyz" j)
          ≡ char_at "abcdefghijklmnopqrstuvwxyz" j)
        now h.0
  | inr before ↦ Lowered-at n k h.1 (ground arith)
]

lower_char-lower_char : (c : Char) → lower_char (lower_char c) ≡ lower_char c
unfolding lower_char
lower_char-lower_char c = elim (Bool-cases (leb 65 (code c) && leb (code c) 90)) [
  | inl capital ↦
      let letter : lower_char c ≡ char_at "abcdefghijklmnopqrstuvwxyz" (code c - 65) =
        rw capital refl in
      let few : code c - 65 < 26 = omega (
        arith,
        leb→le 65 (code c) (&&-true _ _ capital).0,
        leb→le (code c) 90 (&&-true _ _ capital).1,
      ) in
      ap lower_char letter ∙ Lowered-at 26 (code c - 65) letters-Lowered few ∙ sym letter
  | inr other ↦ let same : lower_char c ≡ c = rw other refl in ap lower_char same
]

pub lower-lower : (s : String) → lower (lower s) ≡ lower s
unfolding lower
lower-lower String.[] = refl
lower-lower (String.◌∷◌ c s) = rw (lower_char-lower_char, lower-lower s) refl

lower_runs : lower "0xAbZ9" ≡ "0xabz9"
unfolding lower
lower_runs = refl
