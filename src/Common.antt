-- ===== src/Common.antt =====
-- The names that the other modules share: the libraries', passed on, tests on numbers, C arrays
-- as functions, searches and counts over index ranges, and the digits of machine words.
mod Tests
mod Words
mod Texts
pub mod Arrays
pub mod Search
pub mod Bits
pub use Tests.*
pub use Words.*
pub use Texts.*
pub use Prim.Native.String.{String}
unfoldable pub use Arrays.*
pub use Prim.Native.Nat.{ℕ, zero, suc, ◌+◌, ◌-◌, ◌*◌, ◌/◌, ◌%◌, ◌^◌, ◌≤◌, ◌<◌, min, max}
pub use Prim.Native.Nat.{bit_and, bit_or, bit_xor}
pub use mathlib.Core.Path.{◌≡◌, refl, sym, ap, ◌∙◌, subst, fun_ext}
pub use mathlib.Core.Logic.{◌≢◌, ◌↔◌, ◌⊎◌, inl, inr}
pub use mathlib.Core.Bool.{Bool, true, false, not, ◌&&◌, ◌||◌}
pub use mathlib.Core.Option.{Option, none, some}
pub use mathlib.Core.List.{List, [], ◌∷◌, ◌++◌}
pub use native.Mathlib.Omega.{arith}
