-- ===== src/Prelude.antt =====
-- The names that every module shares: those of the libraries, passed on, and those of the children.
pub mod Tests
pub mod Lists
pub mod Search
pub mod Int
pub mod Ring
pub mod Text
pub mod Numerals
pub mod Dicts
pub use Tests.*
pub use Lists.*
unfoldable pub use Text.*
unfoldable pub use Dicts.*
pub use Numerals.{Date}
unfoldable pub use Numerals.{print_ℕ, print_two, toordinal, weekday}
pub use Prim.Native.Nat.{ℕ, zero, suc, ◌+◌, ◌-◌, ◌*◌, ◌/◌, ◌%◌, ◌^◌, ◌≤◌, ◌<◌}
pub use Prim.Native.String.{String}
pub use mathlib.Core.Path.{◌≡◌, refl, sym, ap, ◌∙◌}
pub use mathlib.Core.Logic.{◌≢◌, ◌↔◌, ◌⊎◌, inl, inr}
pub use mathlib.Core.Bool.{Bool, true, false, not, ◌&&◌, ◌||◌}
pub use mathlib.Core.Option.{Option, none, some}
pub use mathlib.Core.List.{List, [], ◌∷◌, ◌++◌, map}
pub use native.Mathlib.Omega.{arith}
pub use text.Mathlib.TextEquality.{eq_iff}
