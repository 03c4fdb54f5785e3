-- ===== src/Base.antt =====
-- What the other modules share: library names passed on, tests, lists, texts, sorting, dicts.
mod Tests
mod Lists
mod Text
mod Sort
mod Sets
mod Keyed
mod Dicts
mod Decimal
mod Results
mod Split
mod Integers
unfoldable pub use Tests.*
unfoldable pub use Lists.*
unfoldable pub use Text.*
unfoldable pub use Sort.*
unfoldable pub use Sets.*
unfoldable pub use Keyed.*
unfoldable pub use Dicts.*
unfoldable pub use Decimal.*
unfoldable pub use Results.*
unfoldable pub use Split.*
unfoldable pub use Integers.*
pub use Prim.Native.Nat.{ℕ, zero, suc, ◌+◌, ◌-◌, ◌*◌, ◌/◌, ◌%◌, ◌≤◌, ◌<◌, max, min}
pub use Prim.Native.String.{String}
pub use mathlib.Core.Path.{◌≡◌, refl, sym, ap, ◌∙◌, subst}
pub use mathlib.Core.Logic.{◌≢◌, ◌↔◌, ◌⊎◌, inl, inr}
pub use mathlib.Core.Bool.{Bool, true, false, ◌&&◌, ◌||◌, not}
pub use mathlib.Core.Option.{Option, none, some}
pub use mathlib.Core.List.{List, [], ◌∷◌, ◌++◌, map, append-nil, append_assoc}
pub use native.Mathlib.Omega.{arith}
pub use text.Mathlib.Text.{◌==◌}
pub use text.Mathlib.TextEquality.{eq_iff}
pub use text.Mathlib.TextPositions.{eq_refl}
