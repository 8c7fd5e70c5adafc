-- ===== src/Base.antt =====
-- What the other modules share: the libraries' names, passed on, equality, texts, Go maps and calls.
mod Equality
mod Text
mod Lists
mod Effects
pub mod Dict
pub mod Checked
unfoldable pub use Equality.*
unfoldable pub use Text.*
pub use Lists.*
pub use Effects.*
pub use Dict.{get_or, is_some}
pub use Prim.Native.Nat.{ℕ, zero, suc, ◌+◌, ◌-◌, ◌*◌, ◌/◌, ◌%◌, ◌^◌, ◌≤◌, ◌<◌}
pub use Prim.Native.String.{String, ◌++◌ as ◌<>◌}
pub use mathlib.Core.Path.{◌≡◌, refl, sym, ap, ◌∙◌}
pub use mathlib.Core.Logic.{◌≢◌, ◌↔◌, ◌⊎◌, inl, inr}
pub use mathlib.Core.Bool.{Bool, true, false, not, ◌&&◌, ◌||◌}
pub use mathlib.Core.Option.{Option, none, some}
pub use mathlib.Core.List.{List, [], ◌∷◌, ◌++◌, map, Memᴰ}
pub use native.Mathlib.Omega.{arith}
