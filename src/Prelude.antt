-- ===== src/Prelude.antt =====
-- The names that the other modules share: those of the libraries, passed on, and the children's
-- Boolean tests, lists, integers and dictionaries.
mod Tests
mod Lists
mod Int
mod Dictionaries
mod Texts
pub use Tests.*
pub use Lists.*
unfoldable pub use Int.*
unfoldable pub use Dictionaries.*
unfoldable pub use Texts.*
pub use Prim.Native.Nat.{ℕ, zero, suc, ◌+◌, ◌-◌, ◌*◌, ◌/◌, ◌%◌, ◌^◌, ◌≤◌, ◌<◌, min, max}
pub use mathlib.Core.Path.{◌≡◌, refl, sym, ap, subst, ◌∙◌}
pub use mathlib.Core.Logic.{◌≢◌, ◌↔◌, ◌⊎◌, inl, inr}
pub use mathlib.Core.Bool.{Bool, true, false, not, ◌&&◌, ◌||◌}
pub use mathlib.Core.Option.{Option, none, some}
pub use mathlib.Core.List.{List, [], ◌∷◌, ◌++◌, map}
pub use native.Mathlib.Omega.{arith}
