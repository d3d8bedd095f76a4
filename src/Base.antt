-- ===== src/Base.antt =====
-- The names that the other modules share: the libraries', passed on, and those of the children.
-- `Bools` has the Boolean tests, `Lists` the list helpers, `Text` Go's string order, `Outcome`
-- Go's (value, error) results, `Int` the signed machine integers, `Time` instants and
-- durations, `Dict` Go's maps, `Step` methods that may fail on a
-- state, `Stream` goroutines that pass events on.
mod Bools
mod Lists
mod Text
mod Outcome
pub mod Int
pub mod Time
pub mod Dict
pub mod Step
pub mod Stream
pub use Bools.*
pub use Lists.*
unfoldable pub use Text.*
pub use Outcome.*
pub use Prim.Native.Nat.{ℕ, zero, suc, ◌+◌, ◌-◌, ◌*◌, ◌/◌, ◌%◌, ◌^◌, ◌≤◌, ◌<◌}
pub use Prim.Native.String.{String, ◌++◌ as ◌<>◌, len}
pub use mathlib.Core.Path.{◌≡◌, refl, sym, ap, ◌∙◌, subst}
pub use mathlib.Core.Logic.{◌≢◌, ◌↔◌, ◌⊎◌, inl, inr}
pub use mathlib.Core.Bool.{Bool, true, false, not, ◌&&◌, ◌||◌}
pub use mathlib.Core.Option.{Option, none, some}
pub use mathlib.Core.List.{List, [], ◌∷◌, ◌++◌, map}
pub use native.Mathlib.Omega.{arith}
