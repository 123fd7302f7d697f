-- ===== src/Shared.antt =====
-- Names that the other modules share: the libraries', passed on, and those of the children, which
-- hold Boolean tests, lists, texts as lists of code points and results of fallible code.
mod Tests
mod Lists
mod Fallible
mod Integers
mod Text
mod Trim
pub use Tests.*
pub use Lists.*
pub use Fallible.*
pub use Integers.*
unfoldable pub use Text.*
pub use Trim.*
pub use Prim.Native.Nat.{ℕ, zero, suc, ◌+◌, ◌-◌, ◌*◌, ◌/◌, ◌%◌, ◌^◌, ◌≤◌, ◌<◌, min, max}
pub use mathlib.Core.Path.{◌≡◌, refl, sym, ap, ap₂, ◌∙◌, subst, fun_ext}
pub use mathlib.Core.Logic.{◌≢◌, ◌↔◌, ◌⊎◌, inl, inr}
pub use mathlib.Core.Bool.{Bool, true, false, not, ◌&&◌, ◌||◌}
pub use mathlib.Core.Option.{Option, none, some}
pub use mathlib.Core.List.{List, [], ◌∷◌, ◌++◌, map}
pub use native.Mathlib.Omega.{arith}
