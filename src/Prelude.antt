-- ===== src/Prelude.antt =====
-- The names that every other module shares: those of the libraries, passed on, and the helpers of
-- the children: Boolean tests on numbers, lists indexed by numbers, finite maps.
mod Tests
mod Lists
mod Ints
pub mod Map
mod Loop
pub use Tests.*
pub use Lists.*
unfoldable pub use Ints.*
pub use Loop.*
pub use Prim.Native.Nat.{ℕ, zero, suc, ◌+◌, ◌-◌, ◌*◌, ◌/◌, ◌%◌, ◌^◌, ◌≤◌, ◌<◌}
pub use mathlib.Core.Path.{◌≡◌, refl, sym, subst, ap, ap₂, ◌∙◌}
pub use mathlib.Core.Logic.{◌≢◌, ◌⊎◌, inl, inr}
pub use mathlib.Core.Bool.{Bool, true, false, ◌&&◌}
pub use mathlib.Core.Option.{Option, none, some}
pub use mathlib.Core.List.{List, [], ◌∷◌, ◌++◌, map, append-nil, append_assoc}
pub use native.Mathlib.Omega.{arith}
