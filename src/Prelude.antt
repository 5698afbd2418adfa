-- ===== src/Prelude.antt =====
-- The names that the other modules share: the libraries' own, passed on, and those of the
-- children below.
mod Tests
mod Query
mod Keys
mod Sorted
mod Count
mod Texts
unfoldable pub use Tests.*
unfoldable pub use Query.*
unfoldable pub use Keys.*
unfoldable pub use Texts.*
pub use Sorted.*
unfoldable pub use Count.*
pub use Prim.Native.Nat.{ℕ, zero, suc, ◌+◌, ◌-◌, ◌*◌, ◌/◌, ◌%◌, ◌^◌, ◌≤◌, ◌<◌}
pub use mathlib.Core.Path.{◌≡◌, refl, sym, ap, ◌∙◌}
pub use mathlib.Core.Logic.{◌≢◌, ◌↔◌, ◌⊎◌, inl, inr}
pub use mathlib.Core.Bool.{Bool, true, false, not, ◌&&◌, ◌||◌}
pub use mathlib.Core.Option.{Option, none, some}
pub use mathlib.Core.List.{List, [], ◌∷◌, ◌++◌, map}
pub use native.Mathlib.Omega.{arith}
