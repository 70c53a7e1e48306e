-- ===== src/Prelude.antt =====
-- The names that every module shares: the libraries', passed on, and those of the children.
pub mod Tests
pub mod Lists
pub mod Texts
pub mod Codes
pub mod Raising
pub mod Int
pub mod Sort
pub use Tests.*
unfoldable pub use Lists.*
pub use Raising.*
pub use Prim.Native.Nat.{ℕ, zero, suc, ◌+◌, ◌-◌, ◌*◌, ◌^◌, ◌≤◌, ◌<◌, min, max}
pub use mathlib.Core.Path.{◌≡◌, refl, sym, ap, ◌∙◌, subst}
pub use mathlib.Core.Logic.{◌≢◌, ◌↔◌, ◌⊎◌, inl, inr}
pub use mathlib.Core.Bool.{Bool, true, false, not, ◌&&◌, ◌||◌}
pub use mathlib.Core.Option.{Option, none, some}
pub use mathlib.Core.List.{List, [], ◌∷◌, ◌++◌, map}
pub use native.Mathlib.Omega.{arith}
