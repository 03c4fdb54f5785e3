-- ===== src/Base/Split.antt =====
-- Texts searched and split as Python does it.
use Prim.Native.Char.{Char}
use Prim.Native.String.{String}
use mathlib.Core.Path.{◌≡◌, refl}
use mathlib.Core.Bool.{Bool, true, false, ◌&&◌, ◌||◌}
use text.Mathlib.Text.{◌==◌}
use chain_sentinel.Base.Tests.{if◌then◌else◌}

letter : Char → String
letter c = String.◌∷◌ c String.[]

-- `s.startswith(prefix)`
unfoldable pub starts_with : (prefix s : String) → Bool
unfolding letter
starts_with String.[] s = true
starts_with (String.◌∷◌ c prefix) String.[] = false
starts_with (String.◌∷◌ c prefix) (String.◌∷◌ d s) = letter c == letter d && starts_with prefix s

-- `token in s`
unfoldable pub occurs : (token s : String) → Bool
unfolding starts_with
occurs token String.[] = starts_with token ""
occurs token (String.◌∷◌ c s) = starts_with token (String.◌∷◌ c s) || occurs token s

-- `s.split(":", 1)[1]`, or the empty text without a colon.
unfoldable pub after_colon : String → String
unfolding letter
after_colon String.[] = ""
after_colon (String.◌∷◌ c s) = if letter c == ":" then s else after_colon s

-- `s.split(":")[-1]`
unfoldable pub after_last_colon : String → String
unfolding occurs after_colon
after_last_colon String.[] = ""
after_last_colon (String.◌∷◌ c s) =
    let rest = after_last_colon s in if occurs ":" (String.◌∷◌ c s) then rest else String.◌∷◌ c s

after_colon_runs : after_colon "1:0xab:c" ≡ "0xab:c"
unfolding after_colon
after_colon_runs = refl

after_last_colon_runs : after_last_colon "owner:1:mint" ≡ "mint"
unfolding after_last_colon
after_last_colon_runs = refl

occurs_runs : occurs "xy" "abxyc" ≡ true
unfolding occurs
occurs_runs = refl
