-- ===== src/Prelude.antt =====
-- Names that all modules share: the libraries' names passed on, Boolean tests, lists indexed by
-- native numbers, the outcome of a Rust function, and products of shapes.
mod Tests
mod Lists
mod Results
mod Gather
pub use Tests.*
pub use Lists.*
pub use Results.*
unfoldable pub use Gather.*
pub use Prim.Native.Nat.{ℕ, zero, suc, ◌+◌, ◌-◌, ◌*◌, ◌/◌, ◌%◌, ◌^◌, ◌≤◌, ◌<◌, min, max}
pub use mathlib.Core.Path.{◌≡◌, refl, sym, ap, ◌∙◌}
pub use mathlib.Core.Logic.{◌≢◌, ◌↔◌, ◌⊎◌, inl, inr}
pub use mathlib.Core.Bool.{Bool, true, false, ◌&&◌, ◌||◌, not}
pub use mathlib.Core.Option.{Option, none, some}
pub use mathlib.Core.List.{List, [], ◌∷◌, ◌++◌, map}
pub use native.Mathlib.Omega.{arith}
