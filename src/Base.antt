-- ===== src/Base.antt =====
-- Names and lemmas that the components share: the libraries' names passed on, Boolean tests,
-- lists under native indices, and runs that may stop at a failed ASSERT.
mod Tests
mod Lists
mod Run
mod Ints
mod Elements
pub use Tests.*
pub use Lists.*
pub use Run.*
pub use Elements.*
unfoldable pub use Ints.*
pub use Prim.Native.Nat.{ℕ, zero, suc, ◌+◌, ◌-◌, ◌*◌, ◌/◌, ◌%◌, ◌^◌, ◌≤◌, ◌<◌, min, max}
pub use mathlib.Core.Path.{◌≡◌, refl, sym, ap, ◌∙◌}
pub use mathlib.Core.Logic.{◌≢◌, ◌↔◌, ◌⊎◌, inl, inr}
pub use mathlib.Core.Bool.{Bool, true, false, not, ◌&&◌, ◌||◌}
pub use mathlib.Core.Option.{Option, none, some}
pub use mathlib.Core.List.{List, [], ◌∷◌, ◌++◌, map}
pub use native.Mathlib.Omega.{arith}
