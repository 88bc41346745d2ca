-- ===== src/Base.antt =====
-- The names that every module shares: the libraries', passed on, and those of children.
mod Tests
mod Lists
mod Text
mod Checks
mod Maps
mod Clean
pub mod Once
pub mod Members
pub mod Number
pub use Tests.*
pub use Lists.*
unfoldable pub use Text.*
pub use Checks.*
pub use Maps.*
unfoldable pub use Clean.*
pub use Prim.Native.Nat.{ℕ, zero, suc, ◌+◌, ◌-◌, ◌*◌, ◌/◌, ◌^◌, ◌≤◌, ◌<◌, min, max}
pub use Prim.Native.String.{String}
pub use mathlib.Core.Path.{◌≡◌, refl, sym, ap, ◌∙◌}
pub use mathlib.Core.Logic.{◌≢◌, ◌↔◌, ◌⊎◌, inl, inr}
pub use mathlib.Core.Bool.{Bool, true, false, not, ◌&&◌, ◌||◌}
pub use mathlib.Core.Option.{Option, none, some}
pub use mathlib.Core.List.{List, [], ◌∷◌, ◌++◌, map}
pub use native.Mathlib.Omega.{arith}
pub use text.Mathlib.Text.{starts_with}
