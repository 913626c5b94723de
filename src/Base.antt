-- ===== src/Base.antt =====
-- The names that all modules share: the libraries', passed on, and those of the children, which
-- hold tests on numbers and texts, Go's slices, maps and signed integers, and
-- lists of texts.
mod Tests
mod Slices
mod Maps
mod Ints
mod Texts
unfoldable pub use Tests.*
unfoldable pub use Slices.*
unfoldable pub use Maps.*
unfoldable pub use Ints.*
unfoldable pub use Texts.*
pub use Prim.Native.Nat.{ℕ, zero, suc, ◌+◌, ◌-◌, ◌*◌, ◌/◌, ◌%◌, ◌^◌, ◌≤◌, ◌<◌}
pub use Prim.Native.String.{String}
pub use mathlib.Core.Path.{◌≡◌, refl, sym, ap, subst, ◌∙◌}
pub use mathlib.Core.Logic.{◌≢◌, ◌↔◌, ◌⊎◌, inl, inr, ite, if_pos, if_neg}
pub use mathlib.Core.Bool.{Bool, true, false, ◌&&◌, ◌||◌, not}
pub use mathlib.Core.Option.{Option, none, some}
pub use mathlib.Core.List.{List, [], ◌∷◌, ◌++◌, map}
pub use native.Mathlib.Omega.{arith}
unfoldable pub use native.Mathlib.Decide.{ℕ_discrete}
