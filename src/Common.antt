-- ===== src/Common.antt =====
-- Names that every module shares: those of the libraries, passed on, and those of the children.
-- The children hold Boolean tests, sized lists, the equality interface, finite maps and byte text.
mod Tests
mod Lists
mod Equality
pub mod Maps
pub mod Texts
pub mod Cuts
pub mod Floats
pub mod Counts
pub mod Outcome
pub mod Ints
pub use Tests.*
pub use Lists.*
pub use Equality.*
pub use Prim.Native.Nat.{
  ℕ, zero, suc, ◌+◌, ◌-◌, ◌*◌, ◌/◌, ◌%◌, ◌^◌, ◌≤◌, ◌<◌, min, max, compare, Ordering, bit_and,
}
pub use mathlib.Core.Path.{◌≡◌, refl, sym, ap, subst, ◌∙◌, fun_ext}
pub use mathlib.Core.Logic.{◌≢◌, ◌↔◌, ◌⊎◌, inl, inr}
pub use mathlib.Core.Bool.{Bool, true, false, not, ◌&&◌, ◌||◌}
pub use mathlib.Core.Option.{Option, none, some}
pub use mathlib.Core.List.{List, [], ◌∷◌, ◌++◌, map, reverse, append_assoc, append-nil}
pub use native.Mathlib.Omega.{arith}
