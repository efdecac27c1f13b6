-- ===== src/Base.antt =====
-- The names that the other modules share: those of the libraries, passed on, and those of the
-- children: Boolean tests, lists indexed by native numbers, and machine words.
pub mod Float
pub mod Int
mod Tests
mod Lists
mod Words
mod Mod
mod Search
mod SwapRemove
mod Each
mod Retain
unfoldable pub use Tests.*
pub use Lists.*
pub use Words.*
pub use Mod.*
pub use Search.*
unfoldable pub use Retain.*
pub use Each.*
unfoldable pub use SwapRemove.*
pub use Prim.Native.Nat.{ℕ, zero, suc, ◌+◌, ◌-◌, ◌*◌, ◌/◌, ◌%◌, ◌^◌, ◌≤◌, ◌<◌, min, max}
pub use mathlib.Core.Path.{◌≡◌, refl, sym, ap, ◌∙◌, subst}
pub use mathlib.Core.Logic.{◌≢◌, ◌↔◌, ◌⊎◌, inl, inr}
pub use mathlib.Core.Bool.{Bool, true, false, not, ◌&&◌, ◌||◌}
pub use mathlib.Core.Option.{Option, none, some}
pub use mathlib.Core.List.{List, [], ◌∷◌, ◌++◌, map}
pub use native.Mathlib.Omega.{arith}
