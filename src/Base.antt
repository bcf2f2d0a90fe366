-- ===== src/Base.antt =====
-- Names that the other modules share: the libraries', passed on, and those of the children below.
-- No module here models code of the repository except where its header says so.
mod Tests
mod Lists
mod Blocks
mod Bytes
mod Int
mod Text
pub mod Errno
pub use Tests.*
pub use Blocks.*
unfoldable pub use Lists.*
unfoldable pub use Bytes.*
pub use Int.*
unfoldable pub use Text.*
pub use Prim.Native.Nat.{
  ℕ, zero, suc, ◌+◌, ◌-◌, ◌*◌, ◌/◌, ◌%◌, ◌^◌, ◌≤◌, ◌<◌, min, max, bit_and, bit_or,
}
pub use mathlib.Core.Path.{◌≡◌, refl, sym, ap, ◌∙◌}
pub use mathlib.Core.Logic.{◌≢◌, ◌↔◌, ◌⊎◌, inl, inr}
pub use mathlib.Core.Bool.{Bool, true, false, ◌&&◌, ◌||◌, not}
pub use mathlib.Core.Option.{Option, none, some}
pub use mathlib.Core.List.{List, [], ◌∷◌, ◌++◌, map}
pub use native.Mathlib.Omega.{arith}
