-- ===== src/Prelude.antt =====
-- Names shared by the modules: those of the libraries, passed on, Boolean tests on numbers, lists
-- indexed by the native numbers, C's fixed-width words, and checks over a range.
mod Tests
mod Lists
mod Words
mod Tables
pub use Tests.*
pub use Lists.*
pub use Words.*
unfoldable pub use Tables.*
pub use Prim.Native.Nat.{ℕ, zero, suc, ◌+◌, ◌-◌, ◌*◌, ◌/◌, ◌%◌, ◌^◌, ◌≤◌, ◌<◌, min}
pub use mathlib.Core.Path.{◌≡◌, refl, sym, ap, ◌∙◌, fun_ext}
pub use mathlib.Core.Logic.{◌≢◌, ◌↔◌, ◌⊎◌, inl, inr}
pub use mathlib.Core.Bool.{Bool, true, false, not, ◌&&◌, ◌||◌}
pub use mathlib.Core.Option.{Option, none, some}
pub use mathlib.Core.List.{List, [], ◌∷◌, ◌++◌, map, tail}
pub use native.Mathlib.Omega.{arith}
