-- ===== src/Common.antt =====
-- The names that the other modules share: those of the libraries, passed on, and the Boolean
-- tests, the lists over the native numbers, the results and the byte strings of four children.
mod Tests
pub mod Int
mod Lists
mod Results
mod Strings
unfoldable pub use Tests.{all_below}
pub use Tests.*
pub use Lists.*
pub use Results.*
unfoldable pub use Strings.{bytes_eq, starts_with, all_lower}
pub use Strings.*
pub use Prim.Native.Nat.{ℕ, zero, suc, ◌+◌, ◌-◌, ◌*◌, ◌/◌, ◌%◌, ◌^◌, ◌≤◌, ◌<◌, min, max}
pub use mathlib.Core.Path.{◌≡◌, refl, sym, ap, subst, ◌∙◌}
pub use mathlib.Core.Logic.{◌≢◌, ◌↔◌, ◌⊎◌, inl, inr}
pub use mathlib.Core.Bool.{Bool, true, false, not, ◌&&◌, ◌||◌}
pub use mathlib.Core.Option.{Option, none, some}
pub use mathlib.Core.List.{List, [], ◌∷◌, ◌++◌, map, append-nil, append_assoc}
pub use native.Mathlib.Omega.{arith}
unfoldable pub use native.Mathlib.Decide.{dec_lt, dec_le, ℕ_discrete}
