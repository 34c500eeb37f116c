-- ===== src/Base.antt =====
-- What every module shares: the libraries' names, passed on, and the helpers of the children.
mod Tests
mod Lists
pub mod Text
pub mod Key
pub mod Words
pub mod Bytes
pub mod StdSet
pub mod StdMap
pub use Tests.*
pub use Lists.*
pub use Key.{string_key, nat_key}
pub use Prim.Native.Nat.{ℕ, zero, suc, ◌+◌, ◌-◌, ◌*◌, ◌/◌, ◌%◌, ◌≤◌, ◌<◌}
pub use Prim.Native.String.{String}
pub use mathlib.Core.Path.{◌≡◌, refl, sym, ap, ◌∙◌, subst}
pub use mathlib.Core.Logic.{◌≢◌, ◌↔◌, ◌⊎◌, inl, inr}
pub use mathlib.Core.Bool.{Bool, true, false, ◌&&◌, ◌||◌, not}
pub use mathlib.Core.Option.{Option, none, some}
pub use mathlib.Core.List.{List, [], ◌∷◌, ◌++◌, map}
pub use native.Mathlib.Omega.{arith}
