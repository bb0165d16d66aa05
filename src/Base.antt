-- ===== src/Base.antt =====
-- What the other modules share: the libraries' names, Boolean tests, lists measured by native
-- numbers, program text as code points, and the exceptions of the program.
mod Tests
mod Lists
pub mod Division
pub mod Text
pub mod Dict
pub mod Hex
pub mod Bytes
pub mod Int
pub mod Decimal
pub mod Float
pub mod Bits
pub mod Result
pub mod Run
pub mod Utf8
pub use Tests.*
pub use Lists.*
pub use Prim.Native.Nat.{ℕ, zero, suc, ◌+◌, ◌-◌, ◌*◌, ◌/◌, ◌%◌, ◌^◌, ◌≤◌, ◌<◌}
pub use Prim.Native.String.{String}
pub use mathlib.Core.Path.{◌≡◌, refl, sym, ap, ap₂, subst, ◌∙◌}
pub use mathlib.Core.Logic.{◌≢◌, ◌↔◌, ◌⊎◌, inl, inr}
pub use mathlib.Core.Bool.{Bool, true, false, not, ◌&&◌, ◌||◌}
pub use mathlib.Core.Option.{Option, none, some}
pub use mathlib.Core.List.{List, [], ◌∷◌, ◌++◌, map}
pub use native.Mathlib.Omega.{arith}
unfoldable pub use native.Mathlib.Decide.{dec_lt}
