-- ===== src/Common.antt =====
-- The names that the modules of the development share.
pub mod Tests
pub mod Lists
pub mod Checked
pub mod Mod
pub mod Bits
pub mod Prime
pub mod Residue
pub mod Int
pub mod Least
pub mod Options
pub mod Strings
pub mod State
pub use Tests.*
pub use Lists.*
pub use Checked.*
pub use Prim.Native.Nat.{ℕ, zero, suc, ◌+◌, ◌-◌, ◌*◌, ◌/◌, ◌%◌, ◌^◌, ◌≤◌, ◌<◌, ◌∣◌}
pub use mathlib.Core.Path.{◌≡◌, refl, sym, ap, ◌∙◌}
pub use mathlib.Core.Logic.{◌≢◌, ◌↔◌, ◌⊎◌, inl, inr}
pub use mathlib.Core.Bool.{Bool, true, false, not, ◌&&◌, ◌||◌}
pub use mathlib.Core.Option.{Option, none, some}
pub use mathlib.Core.List.{List, [], ◌∷◌, ◌++◌, map}
pub use native.Mathlib.Omega.{arith}
